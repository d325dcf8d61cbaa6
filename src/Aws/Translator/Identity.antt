-- ===== src/Aws/Translator/Identity.antt =====
-- tessera/integrations/aws/cli_translator.py: the handlers of IAM and KMS.
use cloudmorph_tessera.Prelude.{List, [], ◌∷◌}
use cloudmorph_tessera.Aws.Translator.{Part, plain, quoted, json, document}

abbrev pub iam_pass_role : List Part
iam_pass_role =
    plain "--role-arn" "RoleArn"
    ∷ plain "--role-session-name" "RoleSessionName"
    ∷ json "--policy-arns" "PolicyArns"
    ∷ []

abbrev pub iam_attach_role_policy : List Part
iam_attach_role_policy = plain "--role-name" "RoleName" ∷ plain "--policy-arn" "PolicyArn" ∷ []

abbrev pub iam_put_role_policy : List Part
iam_put_role_policy =
    plain "--role-name" "RoleName"
    ∷ plain "--policy-name" "PolicyName"
    ∷ document "--policy-document" "PolicyDocument"
    ∷ []

abbrev pub iam_create_access_key : List Part
iam_create_access_key = plain "--user-name" "UserName" ∷ []

abbrev pub iam_create_user : List Part
iam_create_user = plain "--user-name" "UserName" ∷ plain "--path" "Path" ∷ json "--tags" "Tags" ∷ []

abbrev pub iam_create_policy : List Part
iam_create_policy =
    plain "--policy-name" "PolicyName"
    ∷ document "--policy-document" "PolicyDocument"
    ∷ quoted "--description" "Description"
    ∷ []

abbrev pub iam_update_assume_role_policy : List Part
iam_update_assume_role_policy =
    plain "--role-name" "RoleName" ∷ document "--policy-document" "PolicyDocument" ∷ []

abbrev pub kms_schedule_key_deletion : List Part
kms_schedule_key_deletion =
    plain "--key-id" "KeyId" ∷ plain "--pending-window-in-days" "PendingWindowInDays" ∷ []

abbrev pub kms_create_key : List Part
kms_create_key =
    quoted "--description" "Description"
    ∷ plain "--key-usage" "KeyUsage"
    ∷ plain "--origin" "Origin"
    ∷ document "--policy" "Policy"
    ∷ []
