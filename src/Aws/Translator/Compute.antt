-- ===== src/Aws/Translator/Compute.antt =====
-- tessera/integrations/aws/cli_translator.py: the handlers of EC2 and Lambda.
use cloudmorph_tessera.Prelude.{List, [], ◌∷◌}
use cloudmorph_tessera.Aws.Translator.{
  Part, plain, quoted, json, document, wrapped, ids, list_ids, when_true, fixed,
}

abbrev pub ec2_run_instances : List Part
ec2_run_instances =
    plain "--image-id" "ImageId"
    ∷ plain "--instance-type" "InstanceType"
    ∷ plain "--min-count" "MinCount"
    ∷ plain "--max-count" "MaxCount"
    ∷ plain "--subnet-id" "SubnetId"
    ∷ ids "--security-group-ids" "SecurityGroupIds"
    ∷ plain "--key-name" "KeyName"
    ∷ json "--iam-instance-profile" "IamInstanceProfile"
    ∷ plain "--user-data" "UserData"
    ∷ []

abbrev pub ec2_terminate_instances : List Part
ec2_terminate_instances = ids "--instance-ids" "InstanceIds" ∷ []

abbrev pub ec2_modify_instance_attribute : List Part
ec2_modify_instance_attribute =
    plain "--instance-id" "InstanceId"
    ∷ wrapped "--instance-type" "InstanceType"
    ∷ list_ids "--groups" "Groups"
    ∷ wrapped "--disable-api-termination" "DisableApiTermination"
    ∷ []

abbrev pub ec2_start_instances : List Part
ec2_start_instances = ids "--instance-ids" "InstanceIds" ∷ []

abbrev pub ec2_stop_instances : List Part
ec2_stop_instances = ids "--instance-ids" "InstanceIds" ∷ when_true "--force" "Force" ∷ []

abbrev pub lambda_invoke_function : List Part
lambda_invoke_function =
    plain "--function-name" "FunctionName"
    ∷ plain "--invocation-type" "InvocationType"
    ∷ document "--payload" "Payload"
    ∷ plain "--qualifier" "Qualifier"
    ∷ fixed "response.json"
    ∷ []

abbrev pub lambda_create_function : List Part
lambda_create_function =
    plain "--function-name" "FunctionName"
    ∷ plain "--runtime" "Runtime"
    ∷ plain "--role" "Role"
    ∷ plain "--handler" "Handler"
    ∷ json "--code" "Code"
    ∷ quoted "--description" "Description"
    ∷ plain "--memory-size" "MemorySize"
    ∷ plain "--timeout" "Timeout"
    ∷ []

abbrev pub lambda_update_function_code : List Part
lambda_update_function_code =
    plain "--function-name" "FunctionName"
    ∷ plain "--s3-bucket" "S3Bucket"
    ∷ plain "--s3-key" "S3Key"
    ∷ plain "--zip-file" "ZipFile"
    ∷ plain "--image-uri" "ImageUri"
    ∷ when_true "--publish" "Publish"
    ∷ []
