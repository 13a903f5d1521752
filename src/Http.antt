-- ===== src/Http.antt =====
-- The HTTP/1.1 upgrade request: the tokenizer and parsers of src/parser.c (Http/Token,
-- Http/Parser), and trim of src/common.c with the checks of src/http.c (Http/Validate).
pub mod Word
pub mod Token
pub mod Parser
pub mod Validate
pub mod Recv
pub mod Fields
