-- ===== src/Aws/Translator/Stores.antt =====
-- tessera/integrations/aws/cli_translator.py: the handlers of RDS and S3.
use cloudmorph_tessera.Prelude.{List, [], ◌∷◌}
use cloudmorph_tessera.Aws.Translator.{Part, plain, json, document, switch}

abbrev pub rds_create_db_instance : List Part
rds_create_db_instance =
    plain "--db-instance-identifier" "DBInstanceIdentifier"
    ∷ plain "--db-instance-class" "DBInstanceClass"
    ∷ plain "--engine" "Engine"
    ∷ plain "--master-username" "MasterUsername"
    ∷ plain "--master-user-password" "MasterUserPassword"
    ∷ plain "--allocated-storage" "AllocatedStorage"
    ∷ switch "--multi-az" "--no-multi-az" "MultiAZ"
    ∷ plain "--storage-type" "StorageType"
    ∷ []

abbrev pub rds_modify_db_instance : List Part
rds_modify_db_instance =
    plain "--db-instance-identifier" "DBInstanceIdentifier"
    ∷ plain "--db-instance-class" "DBInstanceClass"
    ∷ plain "--allocated-storage" "AllocatedStorage"
    ∷ switch "--apply-immediately" "--no-apply-immediately" "ApplyImmediately"
    ∷ []

abbrev pub rds_delete_db_instance : List Part
rds_delete_db_instance =
    plain "--db-instance-identifier" "DBInstanceIdentifier"
    ∷ switch "--skip-final-snapshot" "--no-skip-final-snapshot" "SkipFinalSnapshot"
    ∷ plain "--final-db-snapshot-identifier" "FinalDBSnapshotIdentifier"
    ∷ []

abbrev pub s3_put_object : List Part
s3_put_object =
    plain "--bucket" "Bucket"
    ∷ plain "--key" "Key"
    ∷ plain "--body" "Body"
    ∷ plain "--storage-class" "StorageClass"
    ∷ plain "--content-type" "ContentType"
    ∷ plain "--acl" "ACL"
    ∷ []

abbrev pub s3_get_object : List Part
s3_get_object =
    plain "--bucket" "Bucket" ∷ plain "--key" "Key" ∷ plain "--version-id" "VersionId" ∷ []

abbrev pub s3_delete_object : List Part
s3_delete_object = plain "--bucket" "Bucket" ∷ plain "--key" "Key" ∷ []

abbrev pub s3_create_bucket : List Part
s3_create_bucket =
    plain "--bucket" "Bucket"
    ∷ json "--create-bucket-configuration" "CreateBucketConfiguration"
    ∷ plain "--acl" "ACL"
    ∷ []

abbrev pub s3_put_bucket_policy : List Part
s3_put_bucket_policy = plain "--bucket" "Bucket" ∷ document "--policy" "Policy" ∷ []
