-- ===== src/Aws.antt =====
-- tessera/integrations/aws: the translation between canonical names and AWS CLI commands.
pub mod Translator
