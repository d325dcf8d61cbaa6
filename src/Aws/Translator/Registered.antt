-- ===== src/Aws/Translator/Registered.antt =====
-- tessera/integrations/aws/cli_translator.py: the handlers that the module registers, and the names
-- that are no plain camel case.
use cloudmorph_tessera.Prelude.{String, List, [], ◌∷◌}
use cloudmorph_tessera.Dict.{Dict}
use cloudmorph_tessera.Python.Float.{Float}
use cloudmorph_tessera.Aws.Translator.{Part, Texts, Registry, built, register_handler}
use cloudmorph_tessera.Aws.Translator.Identity.{
  iam_pass_role, iam_attach_role_policy, iam_put_role_policy, iam_create_access_key,
  iam_create_user, iam_create_policy, iam_update_assume_role_policy, kms_schedule_key_deletion,
  kms_create_key,
}
use cloudmorph_tessera.Aws.Translator.Compute.{
  ec2_run_instances, ec2_terminate_instances, ec2_modify_instance_attribute, ec2_start_instances,
  ec2_stop_instances, lambda_invoke_function, lambda_create_function, lambda_update_function_code,
}
use cloudmorph_tessera.Aws.Translator.Stores.{
  rds_create_db_instance, rds_modify_db_instance, rds_delete_db_instance, s3_put_object,
  s3_get_object, s3_delete_object, s3_create_bucket, s3_put_bucket_policy,
}
use cloudmorph_tessera.Aws.Translator.Models.{
  bedrock_invoke_model, bedrock_invoke_model_stream, bedrock_apply_guardrail,
  bedrock_create_guardrail,
}

-- the arguments of a call of `register_handler`, with what the handler appends
pub record Entry : Type 0 where
  pub canonical : String
  pub cli_prefix : String
  pub parts : List Part

-- in the order of the calls
abbrev pub entries : List Entry
entries =
    record {
      canonical = "aws_iam_PassRole";
      cli_prefix = "aws iam pass-role";
      parts = iam_pass_role;
    }
    ∷ record {
      canonical = "aws_iam_AttachRolePolicy";
      cli_prefix = "aws iam attach-role-policy";
      parts = iam_attach_role_policy;
    }
    ∷ record {
      canonical = "aws_iam_PutRolePolicy";
      cli_prefix = "aws iam put-role-policy";
      parts = iam_put_role_policy;
    }
    ∷ record {
      canonical = "aws_iam_CreateAccessKey";
      cli_prefix = "aws iam create-access-key";
      parts = iam_create_access_key;
    }
    ∷ record {
      canonical = "aws_iam_CreateUser";
      cli_prefix = "aws iam create-user";
      parts = iam_create_user;
    }
    ∷ record {
      canonical = "aws_iam_CreatePolicy";
      cli_prefix = "aws iam create-policy";
      parts = iam_create_policy;
    }
    ∷ record {
      canonical = "aws_iam_UpdateAssumeRolePolicy";
      cli_prefix = "aws iam update-assume-role-policy";
      parts = iam_update_assume_role_policy;
    }
    ∷ record {
      canonical = "aws_kms_ScheduleKeyDeletion";
      cli_prefix = "aws kms schedule-key-deletion";
      parts = kms_schedule_key_deletion;
    }
    ∷ record {
      canonical = "aws_kms_CreateKey";
      cli_prefix = "aws kms create-key";
      parts = kms_create_key;
    }
    ∷ record {
      canonical = "aws_rds_CreateDBInstance";
      cli_prefix = "aws rds create-db-instance";
      parts = rds_create_db_instance;
    }
    ∷ record {
      canonical = "aws_rds_ModifyDBInstance";
      cli_prefix = "aws rds modify-db-instance";
      parts = rds_modify_db_instance;
    }
    ∷ record {
      canonical = "aws_rds_DeleteDBInstance";
      cli_prefix = "aws rds delete-db-instance";
      parts = rds_delete_db_instance;
    }
    ∷ record {
      canonical = "aws_ec2_RunInstances";
      cli_prefix = "aws ec2 run-instances";
      parts = ec2_run_instances;
    }
    ∷ record {
      canonical = "aws_ec2_TerminateInstances";
      cli_prefix = "aws ec2 terminate-instances";
      parts = ec2_terminate_instances;
    }
    ∷ record {
      canonical = "aws_ec2_ModifyInstanceAttribute";
      cli_prefix = "aws ec2 modify-instance-attribute";
      parts = ec2_modify_instance_attribute;
    }
    ∷ record {
      canonical = "aws_ec2_StartInstances";
      cli_prefix = "aws ec2 start-instances";
      parts = ec2_start_instances;
    }
    ∷ record {
      canonical = "aws_ec2_StopInstances";
      cli_prefix = "aws ec2 stop-instances";
      parts = ec2_stop_instances;
    }
    ∷ record {
      canonical = "aws_s3_PutObject";
      cli_prefix = "aws s3api put-object";
      parts = s3_put_object;
    }
    ∷ record {
      canonical = "aws_s3_GetObject";
      cli_prefix = "aws s3api get-object";
      parts = s3_get_object;
    }
    ∷ record {
      canonical = "aws_s3_DeleteObject";
      cli_prefix = "aws s3api delete-object";
      parts = s3_delete_object;
    }
    ∷ record {
      canonical = "aws_s3_CreateBucket";
      cli_prefix = "aws s3api create-bucket";
      parts = s3_create_bucket;
    }
    ∷ record {
      canonical = "aws_s3_PutBucketPolicy";
      cli_prefix = "aws s3api put-bucket-policy";
      parts = s3_put_bucket_policy;
    }
    ∷ record {
      canonical = "aws_bedrock_InvokeModel";
      cli_prefix = "aws bedrock-runtime invoke-model";
      parts = bedrock_invoke_model;
    }
    ∷ record {
      canonical = "aws_bedrock_InvokeModelWithResponseStream";
      cli_prefix = "aws bedrock-runtime invoke-model-with-response-stream";
      parts = bedrock_invoke_model_stream;
    }
    ∷ record {
      canonical = "aws_bedrock_ApplyGuardrail";
      cli_prefix = "aws bedrock-runtime apply-guardrail";
      parts = bedrock_apply_guardrail;
    }
    ∷ record {
      canonical = "aws_bedrock_CreateGuardrail";
      cli_prefix = "aws bedrock create-guardrail";
      parts = bedrock_create_guardrail;
    }
    ∷ record {
      canonical = "aws_lambda_InvokeFunction";
      cli_prefix = "aws lambda invoke";
      parts = lambda_invoke_function;
    }
    ∷ record {
      canonical = "aws_lambda_CreateFunction";
      cli_prefix = "aws lambda create-function";
      parts = lambda_create_function;
    }
    ∷ record {
      canonical = "aws_lambda_UpdateFunctionCode";
      cli_prefix = "aws lambda update-function-code";
      parts = lambda_update_function_code;
    }
    ∷ []

module _ {F : Type 0} ⦃fl : Float F⦄ where
  unfoldable pub register_entries : Texts F → List Entry → Registry F → Registry F
  unfolding register_handler
  register_entries texts [] r = r
  register_entries texts (e ∷ es) r =
      register_entries texts es
        (register_handler e.canonical e.cli_prefix (built texts e.cli_prefix e.parts) r)

abbrev pub kebab_to_camel_overrides : Dict String String
kebab_to_camel_overrides =
    ("create-db-instance", "CreateDBInstance")
    ∷ ("modify-db-instance", "ModifyDBInstance")
    ∷ ("delete-db-instance", "DeleteDBInstance")
    ∷ ("reboot-db-instance", "RebootDBInstance")
    ∷ ("describe-db-instances", "DescribeDBInstances")
    ∷ ("create-db-cluster", "CreateDBCluster")
    ∷ ("modify-db-cluster", "ModifyDBCluster")
    ∷ ("delete-db-cluster", "DeleteDBCluster")
    ∷ ("restore-db-instance-from-db-snapshot", "RestoreDBInstanceFromDBSnapshot")
    ∷ ("create-db-snapshot", "CreateDBSnapshot")
    ∷ ("delete-db-snapshot", "DeleteDBSnapshot")
    ∷ ("create-db-parameter-group", "CreateDBParameterGroup")
    ∷ ("modify-db-parameter-group", "ModifyDBParameterGroup")
    ∷ ("create-nat-gateway", "CreateNatGateway")
    ∷ ("delete-nat-gateway", "DeleteNatGateway")
    ∷ ("create-vpc", "CreateVpc")
    ∷ ("delete-vpc", "DeleteVpc")
    ∷ ("create-dhcp-options", "CreateDhcpOptions")
    ∷ ("associate-dhcp-options", "AssociateDhcpOptions")
    ∷ ("create-network-acl", "CreateNetworkAcl")
    ∷ ("delete-network-acl", "DeleteNetworkAcl")
    ∷ ("create-saml-provider", "CreateSAMLProvider")
    ∷ ("update-saml-provider", "UpdateSAMLProvider")
    ∷ ("delete-saml-provider", "DeleteSAMLProvider")
    ∷ ("get-saml-provider", "GetSAMLProvider")
    ∷ ("list-saml-providers", "ListSAMLProviders")
    ∷ ("put-role-policy", "PutRolePolicy")
    ∷ ("create-eks-anywhere-subscription", "CreateEksAnywhereSubscription")
    ∷ ("create-custom-key-store", "CreateCustomKeyStore")
    ∷ ("delete-custom-key-store", "DeleteCustomKeyStore")
    ∷ ("put-bucket-policy", "PutBucketPolicy")
    ∷ ("get-bucket-policy", "GetBucketPolicy")
    ∷ ("delete-bucket-policy", "DeleteBucketPolicy")
    ∷ ("put-bucket-acl", "PutBucketAcl")
    ∷ ("get-bucket-acl", "GetBucketAcl")
    ∷ ("put-bucket-cors", "PutBucketCors")
    ∷ ("get-bucket-cors", "GetBucketCors")
    ∷ ("put-bucket-lifecycle-configuration", "PutBucketLifecycleConfiguration")
    ∷ ("put-bucket-notification-configuration", "PutBucketNotificationConfiguration")
    ∷ []
