-- ===== src/ProcessTree/Sessions.antt =====
-- The ids of analysis sessions.
use inspec_thor.Prelude.{◌≡◌, ℕ, ap, sym, ◌∙◌, Text}
use inspec_thor.Format.Hex.{read_pair, read_pair-to_hex}
use inspec_thor.TargetResolver.Profile.{TargetProfile}
use inspec_thor.ProcessTree.Manager.{Manager, begin_session}

pair_of_id :
    (m : Manager) (path type : Text) (profile : TargetProfile) (now : ℕ)
    → read_pair 0 (begin_session path type profile now m).session.session_id
      ≡ (now, (begin_session path type profile now m).generation)
unfolding begin_session
pair_of_id m path type profile now = read_pair-to_hex now _

-- Two sessions with one id began at the same millisecond and in the same generation, whatever their
-- targets: an id is used again only after the 64-bit generation counter has gone round.
pub session_id_unique :
    (m n : Manager) (path path' type type' : Text) (profile profile' : TargetProfile) (now now' : ℕ)
    → (begin_session path type profile now m).session.session_id
      ≡ (begin_session path' type' profile' now' n).session.session_id
    → (now ≡ now')
      × ((begin_session path type profile now m).generation
          ≡ (begin_session path' type' profile' now' n).generation)
session_id_unique m n path path' type type' profile profile' now now' e =
    let pairs =
      sym (pair_of_id m path type profile now)
      ∙ ap (read_pair 0) e
      ∙ pair_of_id n path' type' profile' now' in
    (ap (λ p. p.0) pairs, ap (λ p. p.1) pairs)
