-- ===== src/TargetResolver/Resolve/Arguments.antt =====
-- What the launched host reads from the command line that the resolver wrote.
use inspec_thor.Prelude.{Bool, true, false, ◌≡◌, [], ◌∷◌, ◌++◌, some, Text}
use inspec_thor.TargetResolver.Profile.{OtherTargetType, auto, batch, scr, office}
use inspec_thor.TargetResolver.Quote.{double_quote}
use inspec_thor.TargetResolver.Quote.RoundTrip.{ArgumentReader}

-- The user's arguments behind a space, or nothing.
abbrev pub user_tail : Text → Text
user_tail [] = []
user_tail (c ∷ user) = b' ' ∷ c ∷ user

-- Somewhere in the line a quoted argument opens that is read as `value`, and only the user's
-- arguments follow it.
pub record Passes (reader : ArgumentReader) (line value user : Text) : Type 0 where
  pub before : Text
  pub body : Text
  pub line_parts : line ≡ before ++ double_quote ∷ body
  pub read : reader.inside body ≡ some (value, user_tail user)

-- The types whose host takes the target as one argument.
abbrev pub takes_target : OtherTargetType → Bool
takes_target batch = false
takes_target scr = false
takes_target office = false
takes_target auto = false
takes_target other = true
