-- ===== src/ChatClient/Prompts.antt =====
-- Which prompts share a fingerprint, and hence an entry of the replay cache.
use infrgate.Prelude.{
  ℕ, ◌≡◌, ◌↔◌, refl, sym, ap, Bool, true, ◌&&◌, Option, none, some, List, [], ◌∷◌, All, arith,
}
use infrgate.Prelude.Error.{ok}
use infrgate.Prelude.Text.{Text, codes}
use infrgate.Canonicalize.{object}
use infrgate.Canonicalize.Unquote.{IsUnit}
use infrgate.Canonicalize.Reader.{is_key}
use infrgate.Canonicalize.Plain.{IsNumeral, IsPlain, IsPlainItems, IsPlainFields}
use infrgate.Canonicalize.Normal.{normal, normal_items}
use infrgate.Canonicalize.Meaning.{normal-injective}
use infrgate.Canonicalize.Reorder.{order_independent}
use infrgate.Fingerprint.{SubtleCrypto, Platform, get_subtle_crypto, fingerprint}
use infrgate.Fingerprint.Encodable.{IsEncodable, HasEncodableKeys, HaveEncodableKeys, AreEncodable}
use infrgate.Fingerprint.Utf8.{is_well_formed}
use infrgate.Fingerprint.Distinct.{bytes_of, fingerprint_iff}
use infrgate.ChatClient.{
  Role, system, user, assistant, role_text, ChatMessage, ChatCompletionParams, number_or_undefined,
  message_values, payload_of,
}
use infrgate.ChatClient.Requests.{SamePrompt, payload_of-SamePrompt}

abbrev IsNumeralOrNone : Option Text → Type 0
IsNumeralOrNone none = Unit
IsNumeralOrNone (some t) = IsNumeral t

-- The texts are of code units, and the numbers are numerals.
pub record IsPrintable (params : ChatCompletionParams) : Type 0 where
  pub model : All IsUnit params.model
  pub contents : All (λ (m : ChatMessage). All IsUnit m.content) params.messages
  pub temperature : IsNumeralOrNone params.temperature
  pub max_tokens : IsNumeralOrNone params.max_tokens

-- what `All` says of a text, by computation
abbrev all_pass : (ℕ → Bool) → Text → Bool
all_pass p [] = true
all_pass p (c ∷ s) = p c && all_pass p s

by_test : (p : ℕ → Bool) (s : Text) → all_pass p s ≡ true → All (λ c. p c ≡ true) s
by_test p [] h = tt
by_test p (c ∷ s) h = (ground (arith, h), by_test p s (ground (arith, h)))

is_key_text : (k : Text) → all_pass is_key k ≡ true → All (λ c. is_key c ≡ true) k
is_key_text k h = by_test is_key k h

role_text-units : (r : Role) → All IsUnit (role_text r)
role_text-units system = omega arith
role_text-units user = omega arith
role_text-units assistant = omega arith

role_text-injective : (r r' : Role) → role_text r ≡ role_text r' → r ≡ r'
role_text-injective r r' e = ground arith

number_or_undefined-IsPlain :
    (o : Option Text) → IsNumeralOrNone o → IsPlain (number_or_undefined o)
number_or_undefined-IsPlain none h = tt
number_or_undefined-IsPlain (some t) h = h

message_values-IsPlainItems :
    (ms : List ChatMessage)
    → All (λ (m : ChatMessage). All IsUnit m.content) ms
    → IsPlainItems (message_values ms)
unfolding message_values
message_values-IsPlainItems [] h = tt
message_values-IsPlainItems (m ∷ ms) h = (
  tt,
  (
    is_key_text (codes "role") refl,
    ((λ e. cc), tt),
    role_text-units m.role,
    (is_key_text (codes "content") refl, tt, h.0, tt),
  ),
  message_values-IsPlainItems ms h.1,
)

encodable : (t : Text) → All IsUnit t → is_well_formed t ≡ true → IsEncodable t
encodable t u h = record { units = u; paired = h }

message_values-HaveEncodableKeys : (ms : List ChatMessage) → HaveEncodableKeys (message_values ms)
unfolding message_values
message_values-HaveEncodableKeys [] = tt
message_values-HaveEncodableKeys (m ∷ ms) = (
  (
    encodable (codes "role") (omega arith) refl,
    tt,
    (encodable (codes "content") (omega arith) refl, tt, tt),
  ),
  message_values-HaveEncodableKeys ms,
)

payload_of-IsPlainFields :
    (params : ChatCompletionParams) → IsPrintable params → IsPlainFields (payload_of params)
unfolding payload_of
payload_of-IsPlainFields params h = (
  is_key_text (codes "model") refl,
  ((λ e. cc), ((λ e. cc), ((λ e. cc), tt))),
  h.model,
  (
    is_key_text (codes "messages") refl,
    ((λ e. cc), ((λ e. cc), tt)),
    message_values-IsPlainItems params.messages h.contents,
    (
      is_key_text (codes "temperature") refl,
      ((λ e. cc), tt),
      number_or_undefined-IsPlain params.temperature h.temperature,
      (
        is_key_text (codes "max_tokens") refl,
        tt,
        number_or_undefined-IsPlain params.max_tokens h.max_tokens,
        tt,
      ),
    ),
  ),
)

number_or_undefined-HasEncodableKeys : (o : Option Text) → HasEncodableKeys (number_or_undefined o)
number_or_undefined-HasEncodableKeys none = tt
number_or_undefined-HasEncodableKeys (some t) = tt

payload_of-AreEncodable : (params : ChatCompletionParams) → AreEncodable (payload_of params)
unfolding payload_of
payload_of-AreEncodable params = (
  encodable (codes "model") (omega arith) refl,
  tt,
  (
    encodable (codes "messages") (omega arith) refl,
    message_values-HaveEncodableKeys params.messages,
    (
      encodable (codes "temperature") (omega arith) refl,
      number_or_undefined-HasEncodableKeys params.temperature,
      (
        encodable (codes "max_tokens") (omega arith) refl,
        number_or_undefined-HasEncodableKeys params.max_tokens,
        tt,
      ),
    ),
  ),
)

message_values-injective :
    (ms ns : List ChatMessage)
    → normal_items (message_values ms) ≡ normal_items (message_values ns)
    → ms ≡ ns
unfolding message_values normal
message_values-injective [] [] e = refl
message_values-injective [] (n ∷ ns) e = cc
message_values-injective (m ∷ ms) [] e = cc
message_values-injective (m ∷ ms) (n ∷ ns) e =
    let roles : role_text m.role ≡ role_text n.role = cc in
    let contents : m.content ≡ n.content = cc in
    let rest : normal_items (message_values ms) ≡ normal_items (message_values ns) = cc in
    let others = message_values-injective ms ns rest in
    let first : m ≡ n =
      λ i. record { role = role_text-injective m.role n.role roles i; content = contents i } in
    λ i. first i ∷ others i

number_or_undefined-injective :
    (o o' : Option Text) → normal (number_or_undefined o) ≡ normal (number_or_undefined o') → o ≡ o'
unfolding normal
number_or_undefined-injective none none e = refl
number_or_undefined-injective none (some t) e = cc
number_or_undefined-injective (some t) none e = cc
number_or_undefined-injective (some t) (some u) e = cc

payload_of-injective :
    (params params' : ChatCompletionParams)
    → normal (object (payload_of params)) ≡ normal (object (payload_of params'))
    → SamePrompt params params'
unfolding payload_of normal
payload_of-injective params params' e =
    let models : params'.model ≡ params.model = cc in
    let messages : normal_items (message_values params'.messages)
        ≡ normal_items (message_values params.messages) =
      cc in
    let warm : normal (number_or_undefined params'.temperature)
        ≡ normal (number_or_undefined params.temperature) =
      cc in
    let long : normal (number_or_undefined params'.max_tokens)
        ≡ normal (number_or_undefined params.max_tokens) =
      cc in
    record {
      model = models;
      messages = message_values-injective params'.messages params.messages messages;
      temperature = number_or_undefined-injective params'.temperature params.temperature warm;
      max_tokens = number_or_undefined-injective params'.max_tokens params.max_tokens long;
    }

-- Where the platform has the digest, and the digest tells the bytes of two payloads apart if they
-- differ, two requests have one idempotency fingerprint exactly when they ask the same: the same model,
-- messages, temperature and limit of tokens. Their texts are of code units and their numbers numerals;
-- any text of a message will do, quotes, escapes and surrogates that stand alone included.
pub prompt_fingerprint_iff :
    (p : Platform) (subtle : SubtleCrypto) (params params' : ChatCompletionParams)
    → get_subtle_crypto p ≡ ok subtle
    → IsPrintable params
    → IsPrintable params'
    → (subtle.digest (bytes_of (payload_of params)) ≡ subtle.digest (bytes_of (payload_of params'))
        → bytes_of (payload_of params) ≡ bytes_of (payload_of params'))
    → (fingerprint p (payload_of params) ≡ fingerprint p (payload_of params'))
      ↔ SamePrompt params params'
prompt_fingerprint_iff p subtle params params' e h h' apart =
    let fs = payload_of params in
    let gs = payload_of params' in
    let plain = payload_of-IsPlainFields params h in
    let plain' = payload_of-IsPlainFields params' h' in
    let distinct =
      fingerprint_iff p subtle fs gs e plain plain' (payload_of-AreEncodable params)
        (payload_of-AreEncodable params') apart in
    (
      λ equal. payload_of-injective params params' (
          normal-injective (object fs) (object gs) tt tt plain plain'
            (order_independent (distinct.0 equal))),
      λ same. ap (λ fs. fingerprint p fs) (sym (payload_of-SamePrompt params params' same)),
    )
