-- ===== src/Engine/Defeat/Demotion.antt =====
-- packages/core/src/belief_ledger_core/engine/defeat.py: the writes of an iteration after its
-- base statuses.
use belief_ledger_pramana.Prelude.{
  ℕ, ◌≡◌, refl, Bool, true, false, Option, none, some, List, [], ◌∷◌, All, arith, on_option, leb,
  Bool-cases, inl, inr, if◌then◌else◌,
}
use belief_ledger_pramana.Models.{Belief, DefeatEdge, Perishability, Status, is_in}
use belief_ledger_pramana.Engine.Defeat.Support.{
  Statuses, set_status, is_in_at, Graph, is_supported, candidate_status, Ttl,
}
use belief_ledger_pramana.Engine.Defeat.Round.{
  Cause, Progress, same_pair, before, add_pair, ordered, Comparisons, ends, clashes, open_conflict,
  open_conflicts, defeats, defeat_target, defeat_targets,
}
use belief_ledger_pramana.Engine.Defeat.Relabel.{suspend, drop}

-- What is IN in `after` is IN in `before`.
abbrev pub Fewer : Statuses → Statuses → Type 0
Fewer later earlier = (id : ℕ) → is_in_at id later ≡ true → is_in_at id earlier ≡ true

-- Neither identifier is IN.
abbrev pub BothOut : Statuses → ℕ × ℕ → Type 0
BothOut s x = (is_in_at x.0 s ≡ false) × (is_in_at x.1 s ≡ false)

-- The iteration has demoted `start`, and no end of a conflict is IN.
pub record IsDemoted (start : Statuses) (p : Progress) : Type 0 where
  pub fewer : Fewer p.statuses start
  pub apart : All (BothOut p.statuses) p.conflicts

set_status-Fewer :
    (k : ℕ) (st : Status) (s : Statuses) → is_in st ≡ false → Fewer (set_status k st s) s
set_status-Fewer k st [] h id e = e
set_status-Fewer k st ((i, old) ∷ rest) h id e = ground (arith, set_status-Fewer k st rest h id)

pub set_status-not_in :
    (k : ℕ) (st : Status) (s : Statuses) → is_in st ≡ false → is_in_at k (set_status k st s) ≡ false
set_status-not_in k st [] h = refl
set_status-not_in k st ((i, old) ∷ rest) h = ground (arith, set_status-not_in k st rest h)

pub still_out :
    (later earlier : Statuses) (id : ℕ)
    → Fewer later earlier
    → is_in_at id earlier ≡ false
    → is_in_at id later ≡ false
still_out later earlier id h e = elim (Bool-cases (is_in_at id later)) [
  | inl is_there ↦ absurd (ground (arith, h id is_there))
  | inr is_absent ↦ is_absent
]

All-still_out :
    (later earlier : Statuses) (pairs : List (ℕ × ℕ))
    → Fewer later earlier
    → All (BothOut earlier) pairs
    → All (BothOut later) pairs
All-still_out later earlier [] h a = a
All-still_out later earlier (x ∷ rest) h a = (
  (still_out later earlier x.0 h a.0.0, still_out later earlier x.1 h a.0.1),
  All-still_out later earlier rest h a.1,
)

if-All :
    (P : ℕ × ℕ → Type 0) (b : Bool) (xs ys : List (ℕ × ℕ))
    → All P xs
    → All P ys
    → All P (if b then xs else ys)
if-All P true xs ys h k = h
if-All P false xs ys h k = k

add_pair-All :
    (P : ℕ × ℕ → Type 0) (x : ℕ × ℕ) (pairs : List (ℕ × ℕ))
    → P x
    → All P pairs
    → All P (add_pair x pairs)
add_pair-All P x [] h a = (h, a)
add_pair-All P x (y ∷ rest) h a =
    if-All P (same_pair x y) _ _ a
      (if-All P (before x y) _ _ (h, a) (a.0, add_pair-All P x rest h a.1))

ordered-BothOut :
    (s : Statuses) (a b : ℕ) → is_in_at a s ≡ false → is_in_at b s ≡ false → BothOut s (ordered a b)
ordered-BothOut s a b h k = pick (leb a b)
  where
    pick : (t : Bool) → BothOut s (if t then (a, b) else (b, a))
    pick true = (h, k)
    pick false = (k, h)

-- A status written by a demotion keeps the invariant.
pub demote :
    (start : Statuses) (p : Progress) (k : ℕ) (st : Status) (causes : List (ℕ × Cause))
    → is_in st ≡ false
    → IsDemoted start p
    → IsDemoted start (record p { statuses = set_status k st p.statuses; causes = causes })
demote start p k st causes h d = record {
  fewer = λ id e. d.fewer id (set_status-Fewer k st p.statuses h id e);
  apart = All-still_out _ p.statuses p.conflicts (set_status-Fewer k st p.statuses h) d.apart;
}

-- A step that may leave the progress as it is.
pub if-IsDemoted :
    (start : Statuses) (b : Bool) (p q : Progress)
    → IsDemoted start p
    → IsDemoted start q
    → IsDemoted start (if b then p else q)
if-IsDemoted start true p q h k = h
if-IsDemoted start false p q h k = k

module _ (g : Graph) (comparisons : Comparisons) (current start : Statuses) where
  open_conflict-demotes :
      (e : DefeatEdge) (a t : Belief) (p : Progress)
      → IsDemoted start p
      → IsDemoted start (open_conflict g comparisons current e a t p)
  open_conflict-demotes e a t p d =
      let once = set_status a.id Status.pending p.statuses in
      let twice = set_status t.id Status.pending once in
      let first = demote start p a.id Status.pending [] refl d in
      let second = demote start _ t.id Status.pending [] refl first in
      if-IsDemoted start (clashes g comparisons current e a t) _ p
        (record {
          fewer = second.fewer;
          apart =
              add_pair-All (BothOut twice) (ordered a.id t.id) p.conflicts
                (ordered-BothOut twice a.id t.id
                  (still_out twice once a.id (set_status-Fewer t.id Status.pending once refl)
                    (set_status-not_in a.id Status.pending p.statuses refl))
                  (set_status-not_in t.id Status.pending once refl))
                second.apart;
        })
        d

  pub open_conflicts-demotes :
      (edges : List DefeatEdge) (p : Progress)
      → IsDemoted start p
      → IsDemoted start (open_conflicts g comparisons current edges p)
  unfolding open_conflicts
  open_conflicts-demotes [] p d = d
  open_conflicts-demotes (e ∷ rest) p d = open_conflicts-demotes rest _ (at_ends (ends g e))
    where
      at_ends :
          (o : Option (Belief × Belief))
          → IsDemoted start (on_option o p (λ x. open_conflict g comparisons current e x.0 x.1 p))
      at_ends none = d
      at_ends (some x) = open_conflict-demotes e x.0 x.1 p d

  pub defeat_targets-demotes :
      (edges : List DefeatEdge) (p : Progress)
      → IsDemoted start p
      → IsDemoted start (defeat_targets g comparisons current edges p)
  unfolding defeat_targets
  defeat_targets-demotes [] p d = d
  defeat_targets-demotes (e ∷ rest) p d = defeat_targets-demotes rest _ (at_ends (ends g e))
    where
      at_ends :
          (o : Option (Belief × Belief))
          → IsDemoted start (on_option o p (λ x. defeat_target g comparisons current e x.0 x.1 p))
      at_ends none = d
      at_ends (some (a, t)) =
          if-IsDemoted start (defeats g comparisons current p.conflicts e a t) _ p
            (demote start p t.id Status.out _ refl d) d

module _ (g : Graph) (comparisons : Comparisons) (ttl : Perishability → Ttl) (now : Option ℕ)
    (start : Statuses) where
  pub suspend-demotes :
      (kept : ℕ → Bool) (cause : Cause) (ids : List ℕ) (p : Progress)
      → IsDemoted start p
      → IsDemoted start (suspend g comparisons ttl now kept cause ids p)
  suspend-demotes kept cause [] p d = d
  suspend-demotes kept cause (id ∷ rest) p d =
      suspend-demotes kept cause rest _
        (if-IsDemoted start (kept id) _ p (demote start p id Status.pending _ refl d) d)

  -- An unsupported belief is not a candidate for IN.
  candidate_status-unsupported : (b : Belief) → is_in (candidate_status b false) ≡ false
  unfolding candidate_status
  candidate_status-unsupported b = ground arith

  pub drop-demotes :
      (current : Statuses) (beliefs : List Belief) (p : Progress)
      → IsDemoted start p
      → IsDemoted start (drop g comparisons ttl now current beliefs p)
  drop-demotes current [] p d = d
  drop-demotes current (b ∷ rest) p d = drop-demotes current rest _ (
      if-IsDemoted start (is_supported g current b) p _ d
        (demote start p b.id (candidate_status b false) _ (candidate_status-unsupported b) d))
