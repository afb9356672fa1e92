-- ===== src/Engine/Defeat/Unbeaten.antt =====
-- packages/core/src/belief_ledger_core/engine/defeat.py: winning rebuts in a result of `relabel`.
use belief_ledger_pramana.Prelude.{
  ℕ, suc, ◌≡◌, refl, sym, ap, ◌∙◌, subst, ◌↔◌, Bool, true, false, ◌&&◌, ◌||◌, Option, none, some,
  List, [], ◌∷◌, In, All, arith, on_option, find, ◌==◌, ==_iff, Bool-cases, inl, inr, if◌then◌else◌,
  leb,
}
use belief_ledger_pramana.Models.{Belief, DefeatEdge, Perishability, Source, Status}
use belief_ledger_pramana.Engine.Floats.{Floats}
use belief_ledger_pramana.Engine.Priority.{EngineConfig}
use belief_ledger_pramana.Engine.Defeat.Support.{
  Statuses, is_in_at, Graph, belief_of, rebuts, is_supported, Ttl,
}
use belief_ledger_pramana.Engine.Defeat.Round.{
  Cause, Progress, has_pair, ordered, Comparisons, is_win, decided, ends, defeats, defeat_target,
  defeat_targets, open_conflicts,
}
use belief_ledger_pramana.Engine.Defeat.Relabel.{
  RelabelResult, comparisons_from, base_statuses, iterate, relabel,
}
use belief_ledger_pramana.Engine.Defeat.Demotion.{
  BothOut, open_conflicts-demotes, defeat_targets-demotes, still_out, set_status-not_in,
}
use belief_ledger_pramana.Engine.Defeat.FixedPoint.{base_statuses-in, base-in}
use belief_ledger_pramana.Engine.Defeat.Labels.{labelled}

-- A pair of the conflicts has both its ends out of IN.
has_pair-BothOut :
    (s : Statuses) (a b : ℕ) (pairs : List (ℕ × ℕ))
    → All (BothOut s) pairs
    → has_pair (a, b) pairs ≡ true
    → is_in_at a s ≡ false
has_pair-BothOut s a b [] h e = absurd (ground arith)
has_pair-BothOut s a b ((x, y) ∷ rest) h e =
    split (a == x) (==_iff a x) (b == y) e (has_pair-BothOut s a b rest h.1)
  where
    split :
        (t : Bool)
        → ((t ≡ true) ↔ (a ≡ x))
        → (u : Bool) → ((t && u) || has_pair (a, b) rest) ≡ true
        → (has_pair (a, b) rest ≡ true → is_in_at a s ≡ false)
        → is_in_at a s ≡ false
    split true i true k later = subst (λ c. is_in_at c s ≡ false) (sym (i.0 refl)) h.0.0
    split true i false k later = later k
    split false i u k later = later k

-- No pair of the conflicts has both ends IN.
no_pair :
    (s : Statuses) (a b : ℕ) (pairs : List (ℕ × ℕ))
    → All (BothOut s) pairs
    → is_in_at a s ≡ true
    → has_pair (a, b) pairs ≡ false
no_pair s a b pairs h e = ground (arith, has_pair-BothOut s a b pairs h)

no_ordered_pair :
    (s : Statuses) (a b : ℕ) (pairs : List (ℕ × ℕ))
    → All (BothOut s) pairs
    → is_in_at a s ≡ true
    → is_in_at b s ≡ true
    → has_pair (ordered a b) pairs ≡ false
no_ordered_pair s a b pairs h e k = pick (leb a b)
  where
    pick : (t : Bool) → has_pair (if t then (a, b) else (b, a)) pairs ≡ false
    pick true = no_pair s a b pairs h e
    pick false = no_pair s b a pairs h k

module _ (g : Graph) (comparisons : Comparisons) (current : Statuses) where
  -- One round of the second loop.
  abbrev strike : DefeatEdge → Progress → Progress
  strike e p = on_option (ends g e) p (λ x. defeat_target g comparisons current e x.0 x.1 p)

  strike-conflicts : (e : DefeatEdge) (p : Progress) → (strike e p).conflicts ≡ p.conflicts
  strike-conflicts e p = at_ends (ends g e)
    where
      kept :
          (b : Bool) (q : Progress)
          → q.conflicts ≡ p.conflicts
          → (if b then q else p).conflicts ≡ p.conflicts
      kept true q h = h
      kept false q h = refl

      at_ends :
          (o : Option (Belief × Belief))
          → (on_option o p (λ x. defeat_target g comparisons current e x.0 x.1 p)).conflicts
            ≡ p.conflicts
      at_ends none = refl
      at_ends (some (a, t)) = kept (defeats g comparisons current p.conflicts e a t) _ refl

  -- A winning rebut from an attacker that was IN is struck, and its target stays out of IN.
  strike-out :
      (e : DefeatEdge) (a t : Belief) (p : Progress)
      → ends g e ≡ some (a, t)
      → defeats g comparisons current p.conflicts e a t ≡ true
      → is_in_at t.id (strike e p).statuses ≡ false
  strike-out e a t p h k = rw (h, k) (set_status-not_in t.id Status.out p.statuses refl)

  struck :
      (x : DefeatEdge) (p : Progress)
      → All (BothOut p.statuses) p.conflicts
      → All (BothOut (strike x p).statuses) (strike x p).conflicts
  unfolding defeat_targets
  struck x p d =
      (defeat_targets-demotes g comparisons current p.statuses (x ∷ []) p
        (record { fewer = λ id q. q; apart = d })).apart

  defeat_targets-hit :
      (e : DefeatEdge) (a t : Belief) (edges : List DefeatEdge) (p : Progress)
      → All (BothOut p.statuses) p.conflicts
      → In e edges
      → ends g e ≡ some (a, t)
      → defeats g comparisons current p.conflicts e a t ≡ true
      → is_in_at t.id (defeat_targets g comparisons current edges p).statuses ≡ false
  unfolding defeat_targets
  defeat_targets-hit e a t [] p d k h w = absurd k
  defeat_targets-hit e a t (x ∷ rest) p d (inl same) h w =
      still_out _ (strike x p).statuses t.id
        (defeat_targets-demotes g comparisons current (strike x p).statuses rest (strike x p)
          (record { fewer = λ id q. q; apart = struck x p d })).fewer
        (subst (λ y. is_in_at t.id (strike y p).statuses ≡ false) same (strike-out e a t p h w))
  defeat_targets-hit e a t (x ∷ rest) p d (inr later) h w =
      defeat_targets-hit e a t rest (strike x p) (struck x p d) later h
        (subst (λ c. defeats g comparisons current c e a t ≡ true) (sym (strike-conflicts x p)) w)

-- The condition of a strike, from what it conjoins.
strikes :
    (g : Graph) (comparisons : Comparisons) (current : Statuses) (conflicts : List (ℕ × ℕ))
    (e : DefeatEdge) (a t : Belief)
    → has_pair (a.id, t.id) conflicts ≡ false
    → has_pair (ordered a.id t.id) conflicts ≡ false
    → decided is_win comparisons e ≡ true
    → is_in_at a.id current ≡ true
    → is_supported g current t ≡ true
    → defeats g comparisons current conflicts e a t ≡ true
strikes g comparisons current conflicts e a t h k win attacks supported =
    rw (h, k, win, attacks, supported) refl

-- An iteration leaves the target of a winning rebut from an attacker that was IN out of IN, unless
-- the two are an open conflict.
iterate-unbeaten :
    (g : Graph) (comparisons : Comparisons) (ttl : Perishability → Ttl) (now : Option ℕ)
    (current : Statuses) (causes : List (ℕ × Cause)) (e : DefeatEdge) (a t : Belief)
    → In e (rebuts g)
    → ends g e ≡ some (a, t)
    → decided is_win comparisons e ≡ true
    → is_in_at a.id current ≡ true
    → is_supported g current t ≡ true
    → let next = (iterate g comparisons ttl now current causes).statuses in
      is_in_at a.id next ≡ true → is_in_at t.id next ≡ false
unfolding iterate
iterate-unbeaten g comparisons ttl now current causes e a t member h win attacks supported still =
    let start = base_statuses g comparisons ttl now current g.beliefs in
    let p : Progress = open_conflicts g comparisons current (rebuts g) _ in
    let d =
      open_conflicts-demotes g comparisons current start (rebuts g) _
        (record { fewer = λ id q. q; apart = _ }) in
    let later =
      defeat_targets-demotes g comparisons current p.statuses (rebuts g) p
        (record { fewer = λ id q. q; apart = d.apart }) in
    elim (Bool-cases (is_in_at t.id p.statuses)) [
      | inr is_out ↦ still_out _ p.statuses t.id later.fewer is_out
      | inl is_left ↦ defeat_targets-hit g comparisons current e a t (rebuts g) p d.apart member h (
          strikes g comparisons current p.conflicts e a t
            (no_pair p.statuses a.id t.id p.conflicts d.apart (later.fewer a.id still))
            (no_ordered_pair p.statuses a.id t.id p.conflicts d.apart (later.fewer a.id still)
              is_left)
            win attacks supported)
    ]

find-id :
    (id : ℕ) (beliefs : List Belief) (t : Belief)
    → find (λ (c : Belief). c.id == id) beliefs ≡ some t
    → t.id ≡ id
find-id id [] t h = absurd (ground arith)
find-id id (b ∷ rest) t h = split (b.id == id) (==_iff b.id id) h (find-id id rest t)
  where
    split :
        (u : Bool)
        → ((u ≡ true) ↔ (b.id ≡ id))
        → (if u then some b else find (λ (c : Belief). c.id == id) rest) ≡ some t
        → (find (λ (c : Belief). c.id == id) rest ≡ some t → t.id ≡ id)
        → t.id ≡ id
    split true i k later = ap (λ (o : Option Belief). on_option o id (λ c. c.id)) (sym k) ∙ i.0 refl
    split false i k later = later k

-- The target of an edge is the belief of the graph under its own identifier.
ends-target :
    (g : Graph) (e : DefeatEdge) (a t : Belief) → ends g e ≡ some (a, t) → belief_of g t.id ≡ some t
ends-target g e a t h =
    let found = target_of (belief_of g e.attacker) (belief_of g e.target) h in
    ap (belief_of g) (find-id e.target g.beliefs t found) ∙ found
  where
    target_of :
        (o u : Option Belief)
        → on_option {B = Option (Belief × Belief)} o none (λ x. on_option u none (λ y. some (x, y)))
          ≡ some (a, t)
        → u ≡ some t
    target_of none u k = absurd (ground arith)
    target_of (some x) none k = absurd (ground arith)
    target_of (some x) (some y) k = cc

-- Where the loop converged (no oscillation, at least one iteration), no belief that is IN is the target of a rebut that wins by the
-- comparison of its two ends and whose attacker is IN.
pub relabel_unbeaten :
    (f : Floats) (g : Graph) (cycle : List ℕ) (sources : List Source) (config : EngineConfig)
    (ttl : Perishability → Ttl) (now : Option ℕ) (n : ℕ) (r : RelabelResult)
    (comparisons : Comparisons) (e : DefeatEdge) (a t : Belief)
    → relabel f g cycle sources config ttl now (suc n) ≡ some r
    → comparisons_from f g sources config (rebuts g) ≡ some comparisons
    → r.oscillation ≡ false
    → In e (rebuts g)
    → ends g e ≡ some (a, t)
    → decided is_win comparisons e ≡ true
    → is_in_at a.id r.statuses ≡ true
    → is_in_at t.id r.statuses ≡ false
relabel_unbeaten f g cycle sources config ttl now n r comparisons e a t ran known converged member h
      win attacks =
    let (cs, made, l) = labelled f g cycle sources config ttl now n r ran in
    let (is_current, is_next) = l.settled converged in
    elim (Bool-cases (is_in_at t.id r.statuses)) [
      | inr is_out ↦ is_out
      | inl is_left ↦
          let (b, found, is_base) =
            base_statuses-in g cs ttl now l.current g.beliefs t.id (l.fewer t.id is_left) in
          let (_, supported, _) = base-in g cs ttl now l.current b is_base in
          let same : b ≡ t = cc (found, ends-target g e a t h) in
          let used : cs ≡ comparisons = cc (made, known) in
          subst (λ s. is_in_at t.id s ≡ false) (sym is_next)
            (iterate-unbeaten g cs ttl now l.current l.causes e a t member h
              (subst (λ c. decided is_win c e ≡ true) (sym used) win)
              (subst (λ s. is_in_at a.id s ≡ true) is_current attacks)
              (subst (λ c. is_supported g l.current c ≡ true) same supported)
              (subst (λ s. is_in_at a.id s ≡ true) is_next attacks))
    ]
