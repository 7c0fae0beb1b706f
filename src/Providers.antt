-- ===== src/Providers.antt =====
-- internal/providers/catalog.go: the providers and models that the web UI offers.
use espur.Base.{
  Bool, true, false, List, [], ◌∷◌, ◌++◌, Option, none, some, Bytes, codes, same, if◌then◌else◌,
}

pub record Provider : Type 0 where
  pub id : Bytes
  pub name : Bytes
  pub env_key : Bytes
  pub supports_oauth : Bool
  pub models : List Bytes

abbrev provider : Bytes → Bytes → Bytes → Bool → List Bytes → Provider
provider id name env_key oauth models = record {
  id = id;
  name = name;
  env_key = env_key;
  supports_oauth = oauth;
  models = models;
}

unfoldable pub catalog : List Provider
catalog =
    provider (codes "anthropic") (codes "Anthropic") (codes "ANTHROPIC_API_KEY") true
      (codes "claude-opus-4-7" ∷ codes "claude-sonnet-4-6" ∷ codes "claude-haiku-4-5" ∷ [])
    ∷ provider (codes "openai") (codes "OpenAI") (codes "OPENAI_API_KEY") true (
        codes "gpt-5.5-pro"
        ∷ codes "gpt-5.5"
        ∷ codes "gpt-5.4"
        ∷ codes "gpt-5.4-mini"
        ∷ codes "gpt-5.4-nano"
        ∷ [])
    ∷ provider (codes "google") (codes "Google") (codes "GEMINI_API_KEY") true
        (codes "gemini-3.5-flash" ∷ codes "gemini-2.5-pro" ∷ codes "gemini-2.5-flash" ∷ [])
    ∷ provider (codes "github-copilot") (codes "GitHub Copilot") [] true (
        codes "claude-opus-4.7"
        ∷ codes "claude-sonnet-4.6"
        ∷ codes "claude-haiku-4.5"
        ∷ codes "gpt-5.5"
        ∷ codes "gemini-3.5-flash"
        ∷ [])
    ∷ provider (codes "xai") (codes "xAI") (codes "XAI_API_KEY") false (codes "grok-4.3" ∷ [])
    ∷ provider (codes "deepseek") (codes "DeepSeek") (codes "DEEPSEEK_API_KEY") false (
        codes "deepseek-v4-pro"
        ∷ codes "deepseek-v4-flash"
        ∷ codes "deepseek-reasoner"
        ∷ codes "deepseek-chat"
        ∷ [])
    ∷ provider (codes "mistral") (codes "Mistral") (codes "MISTRAL_API_KEY") false (
        codes "mistral-large-latest"
        ∷ codes "mistral-medium-latest"
        ∷ codes "mistral-small-latest"
        ∷ codes "codestral-latest"
        ∷ [])
    ∷ provider (codes "groq") (codes "Groq") (codes "GROQ_API_KEY") false (
        codes "llama-3.3-70b-versatile"
        ∷ codes "meta-llama/llama-4-maverick-17b-128e-instruct"
        ∷ codes "moonshotai/kimi-k2-instruct-0905"
        ∷ [])
    ∷ provider (codes "cerebras") (codes "Cerebras") (codes "CEREBRAS_API_KEY") false
        (codes "gpt-oss-120b" ∷ codes "zai-glm-4.7" ∷ [])
    ∷ provider (codes "openrouter") (codes "OpenRouter") (codes "OPENROUTER_API_KEY") false (
        codes "anthropic/claude-opus-4.7"
        ∷ codes "anthropic/claude-sonnet-4.6"
        ∷ codes "openai/gpt-5.5"
        ∷ codes "google/gemini-3.5-flash"
        ∷ codes "deepseek/deepseek-v4-pro"
        ∷ [])
    ∷ []

unfoldable pub has_model : Bytes → Bytes → List Bytes → Option Bytes
has_model model id [] = none
has_model model id (m ∷ ms) =
    let rest = has_model model id ms in if same (id ++ codes "/" ++ m) model then some m else rest

abbrev pub found_in :
    Provider → Option Bytes → Option (Provider × Bytes) → Option (Provider × Bytes)
found_in p none rest = rest
found_in p (some m) rest = some (p, m)

unfoldable pub lookup_in : List Provider → Bytes → Option (Provider × Bytes)
unfolding has_model
lookup_in [] model = none
lookup_in (p ∷ ps) model = found_in p (has_model model p.id p.models) (lookup_in ps model)

-- Lookup
unfoldable pub lookup_model : Bytes → Option (Provider × Bytes)
lookup_model model = lookup_in catalog model

unfoldable pub provider_by_id : Bytes → List Provider → Option Provider
provider_by_id id [] = none
provider_by_id id (p ∷ ps) =
    let rest = provider_by_id id ps in if same p.id id then some p else rest
