-- ===== src/TargetResolver/Quote/Tests.antt =====
-- Runs of `Quote`, and the witness.
use inspec_thor.TargetResolver.Quote.Reader.{documented}
use inspec_thor.Prelude.{◌≡◌, refl, ◌∷◌, ◌++◌, some, Text, codes}
use inspec_thor.TargetResolver.Quote.{double_quote, quote}
use inspec_thor.TargetResolver.Quote.RoundTrip.{inside-quote}

quote_spaces : quote (codes "a b") ≡ codes "\"a b\""
unfolding quote
quote_spaces = refl

quote_trailing : quote (codes "c:\\d\\") ≡ codes "\"c:\\d\\\\\""
unfolding quote
quote_trailing = refl

quote_mark : quote (codes "\\\"") ≡ codes "\"\\\\\\\"\""
unfolding quote
quote_mark = refl

abbrev sample : Text
sample = codes "C:\\a \"b\\"

inside-quote_example :
    (body : Text) × (quote sample ≡ double_quote ∷ body)
    × (documented.inside (body ++ codes " /x") ≡ some (sample, codes " /x"))
inside-quote_example = inside-quote documented (codes " /x") (λ t e. cc) sample
