-- ===== src/Raft/Engine/Terms.antt =====
-- The term that a state has noted, and what a step keeps of it.
use hamok_ts.Prelude.{string_key, ℕ, ◌≤◌, ◌≡◌}
use hamok_ts.Raft.Engine.{RaftEngine, RaftState, empty, follower, candidate, leader}

module _ {E : Type 0} where
  -- The term that a follower or a leader noted when it took up its state is the engine's.
  abbrev pub TermNoted : RaftState E → ℕ → Type 0
  TermNoted empty n = Unit {0}
  TermNoted (follower f) n = f.current_term ≡ n
  TermNoted (candidate c) n = Unit {0}
  TermNoted (leader l) n = l.current_term ≡ n

  -- A step does not lower the term, and the state that it ends in has noted the term.
  abbrev pub Keeps : RaftEngine E → RaftEngine E → Type 0
  Keeps e e' =
      (e.props.current_term ≤ e'.props.current_term) × TermNoted e'.state e'.props.current_term

  pub kept :
      (e e' : RaftEngine E) {n : ℕ}
      → e'.props ≡ e.props
      → e'.state ≡ e.state
      → n ≤ e.props.current_term
      → TermNoted e.state e.props.current_term
      → (n ≤ e'.props.current_term) × TermNoted e'.state e'.props.current_term
  kept e e' p q h t = rw (p, q) (h, t)
