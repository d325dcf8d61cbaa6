-- ===== src/Aws/Translator/Models.antt =====
-- tessera/integrations/aws/cli_translator.py: the handlers of Bedrock.
use cloudmorph_tessera.Prelude.{List, [], ◌∷◌}
use cloudmorph_tessera.Aws.Translator.{Part, plain, quoted, json, document, first_plain}

abbrev pub bedrock_invoke_model : List Part
bedrock_invoke_model =
    first_plain "--model-id" "modelId" "ModelId"
    ∷ document "--body" "body"
    ∷ plain "--content-type" "contentType"
    ∷ plain "--accept" "accept"
    ∷ []

abbrev pub bedrock_invoke_model_stream : List Part
bedrock_invoke_model_stream =
    first_plain "--model-id" "modelId" "ModelId" ∷ document "--body" "body" ∷ []

abbrev pub bedrock_apply_guardrail : List Part
bedrock_apply_guardrail =
    plain "--guardrail-identifier" "guardrailIdentifier"
    ∷ plain "--guardrail-version" "guardrailVersion"
    ∷ plain "--source" "source"
    ∷ json "--content" "content"
    ∷ []

abbrev pub bedrock_create_guardrail : List Part
bedrock_create_guardrail =
    plain "--name" "name"
    ∷ quoted "--description" "description"
    ∷ quoted "--blocked-input-messaging" "blockedInputMessaging"
    ∷ quoted "--blocked-outputs-messaging" "blockedOutputsMessaging"
    ∷ json "--content-policy-config" "contentPolicyConfig"
    ∷ []
