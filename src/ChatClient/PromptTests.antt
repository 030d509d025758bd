-- ===== src/ChatClient/PromptTests.antt =====
-- Two prompts that differ in an escape, and the theorem on their fingerprints.
use infrgate.Prelude.{◌≡◌, ◌↔◌, ◌%◌, refl, none, some, [], ◌∷◌, arith}
use infrgate.Prelude.Text.{Text, codes}
use infrgate.Prelude.Dict.{lookup}
use infrgate.Prelude.Sort
use infrgate.Canonicalize.{canonicalize}
use infrgate.Fingerprint.{encode, fingerprint, get_subtle_crypto}
use infrgate.Fingerprint.Distinct.{bytes_of}
use infrgate.Fingerprint.Tests.{total, checksum, summing, differ}
use infrgate.ChatClient.{ChatCompletionParams, user, payload_of}
use infrgate.ChatClient.Requests.{SamePrompt}
use infrgate.ChatClient.Prompts.{IsPrintable, prompt_fingerprint_iff}

abbrev prompt : Text → ChatCompletionParams
prompt content = record {
  model = codes "gpt-4";
  messages = (record { role = user; content = content }) ∷ [];
  temperature = some (codes "0.7");
  max_tokens = none;
  stream = none;
  idempotency_key = none;
}

abbrev plain : ChatCompletionParams
plain = prompt (codes "Hello, n")

abbrev lined : ChatCompletionParams
lined = prompt (codes "Hello,\n")

plain-IsPrintable : IsPrintable plain
plain-IsPrintable = record {
  model = omega arith;
  contents = (omega arith, tt);
  temperature = (refl, (refl, (refl, tt)));
  max_tokens = tt;
}

lined-IsPrintable : IsPrintable lined
lined-IsPrintable = record {
  model = omega arith;
  contents = (omega arith, tt);
  temperature = (refl, (refl, (refl, tt)));
  max_tokens = tt;
}

-- the sums of their bytes differ
told_apart :
    checksum.digest (bytes_of (payload_of plain)) ≡ checksum.digest (bytes_of (payload_of lined))
    → bytes_of (payload_of plain) ≡ bytes_of (payload_of lined)
unfolding payload_of encode canonicalize Sort.sort lookup
told_apart e = absurd (
    differ (total (bytes_of (payload_of plain)) % 256) (total (bytes_of (payload_of lined)) % 256)
      refl (cc))

prompt_fingerprint_iff_example :
    (fingerprint summing (payload_of plain) ≡ fingerprint summing (payload_of lined))
    ↔ SamePrompt plain lined
unfolding get_subtle_crypto
prompt_fingerprint_iff_example =
    prompt_fingerprint_iff summing checksum plain lined refl plain-IsPrintable lined-IsPrintable
      told_apart
