-- ===== src/TargetResolver/Quote.antt =====
-- `Quote` of src/controller/target_resolver.cpp: one argument of a Windows command line.
pub mod RoundTrip
pub mod Reader
mod Tests
use inspec_thor.Prelude.{ℕ, ◌+◌, ◌*◌, List, [], ◌∷◌, ◌++◌, Text, ◌==◌, if◌then◌else◌, replicate}

abbrev pub backslash : ℕ
backslash = b'\\'

abbrev pub double_quote : ℕ
double_quote = b'"'

-- The loop, over the text that is left, the pending `slashes` and the `result` so far.
quote_loop : Text → ℕ → Text → Text
quote_loop [] slashes result = (result ++ replicate (slashes * 2) backslash) ++ double_quote ∷ []
quote_loop (ch ∷ value) slashes result =
    let escaped =
      quote_loop value 0 ((result ++ replicate (slashes * 2 + 1) backslash) ++ double_quote ∷ []) in
    let plain = quote_loop value 0 ((result ++ replicate slashes backslash) ++ ch ∷ []) in
    let pending = quote_loop value (slashes + 1) result in
    if ch == backslash then pending else if ch == double_quote then escaped else plain

unfoldable pub quote : Text → Text
unfolding quote_loop
quote value = quote_loop value 0 (double_quote ∷ [])
