-- ===== src/Schemas/Reasoning.antt =====
-- The reasoning settings in the body of a request and in a response.
use z_apply_backend.Base.{
  String, ◌≡◌, refl, Bool, true, false, ◌&&◌, Option, none, some, any, str_eq, if◌then◌else◌,
}
use z_apply_backend.Json.{Fields, end, field, null, str, get, get_or_null, Value}
use z_apply_backend.Schemas.{RunResponse, validated, effort_allowed}
use z_apply_backend.Schemas.Bodies.{
  ReasoningBody, asked_reasonings, asked_efforts, ◌>>=◌, map_some, reasoning_body, required,
  optional, nullable, literal,
}

-- `None` is null in JSON.
abbrev optional_text : Option String → Value
optional_text none = null
optional_text (some s) = str s

-- The body that asks for the settings that a response shows, and what is read from it.
abbrev pub settings_of : RunResponse → Fields
settings_of r =
    field "reasoning" (str r.current_reasoning)
      (field "reasoning_effort" (optional_text r.current_reasoning_effort) end)

abbrev pub asked : RunResponse → ReasoningBody
asked r = record { reasoning = r.current_reasoning; reasoning_effort = r.current_reasoning_effort }

same_settings :
    (s : String) (e : Option String) (r : RunResponse)
    → s ≡ r.current_reasoning
    → e ≡ r.current_reasoning_effort
    → some (record { reasoning = s; reasoning_effort = e }) ≡ some (asked r)
same_settings s e r p q = cc

after_effort :
    (b : Bool) (s e : String) (r : RunResponse)
    → s ≡ r.current_reasoning
    → some e ≡ r.current_reasoning_effort
    → (map_some some (if b then some e else none) >>= λ effort.
        some (record { reasoning = s; reasoning_effort = effort }))
      ≡ map_some asked (if b then some r else none)
after_effort true s e r p q = same_settings s (some e) r p q
after_effort false s e r p q = refl

-- Both sides, when the test of the first setting is done.
after_reasoning :
    (b : Bool) (s : String) (e : Option String) (r : RunResponse)
    → s ≡ r.current_reasoning
    → e ≡ r.current_reasoning_effort
    → ((if b then some s else none) >>= λ reasoning.
        nullable (literal asked_efforts) (optional_text e) >>= λ effort.
        some (record { reasoning = reasoning; reasoning_effort = effort }))
      ≡ map_some asked (if b && effort_allowed e then some r else none)
unfolding nullable literal
after_reasoning false s e r p q = refl
after_reasoning true s none r p q = same_settings s none r p q
after_reasoning true s (some e) r p q = after_effort (any (str_eq e) asked_efforts) s e r p q

-- The texts that a request may have and those that a response may have are declared apart, and
-- agree: a body that asks for the settings of a response is accepted, as these settings, exactly if the
-- response is one that the validation lets through; so every pair of settings that a client may ask
-- for can be shown, and every pair that can be shown may be asked for.
pub reasoning_body-validated :
    (r : RunResponse) → reasoning_body (settings_of r) ≡ map_some asked (validated r)
unfolding reasoning_body validated required optional nullable literal get get_or_null
reasoning_body-validated r =
    after_reasoning (any (str_eq r.current_reasoning) asked_reasonings) r.current_reasoning
      r.current_reasoning_effort r refl refl
