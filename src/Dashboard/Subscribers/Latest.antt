-- ===== src/Dashboard/Subscribers/Latest.antt =====
-- What a channel holds, told from the events.
use copilot_token_cost.Prelude.{
  ℕ, suc, ◌≡◌, refl, ap, subst, ◌∙◌, Bool, Option, none, some, List, [], ◌∷◌, Bytes, ◌==◌, bytes_eq,
  nat_eq, eq_iff, if◌then◌else◌, Bool-cases, Option-cases, inl, inr,
}
use copilot_token_cost.Prelude.Maps.{Map, lookup, lookup-insert, lookup-delete, is_some}
use copilot_token_cost.Dashboard.Subscribers.{
  Subscribers, no_subscribers, push_latest_update, push_all, broadcast, subscribe, unsubscribe,
  close_subscribers, read_from, Event, subscribed, unsubscribed, broadcasted, read_by, closed, step,
  after_events,
}

-- The number of channels made so far.
abbrev pub made : List Event → ℕ
made [] = 0
made (subscribed ∷ es) = suc (made es)
made (unsubscribed ch ∷ es) = made es
made (broadcasted reads patch ∷ es) = made es
made (read_by ch ∷ es) = made es
made (closed ∷ es) = made es

abbrev pub if_open : Option Bytes → Option (Option Bytes) → Option (Option Bytes)
if_open held none = none
if_open held (some buffer) = some held

-- Whether the channel is open, and what it holds: the last patch that was sent since it was made or last
-- read.
abbrev pub view : ℕ → List Event → Option (Option Bytes)
view ch [] = none
view ch (subscribed ∷ es) = if made es == ch then some none else view ch es
view ch (unsubscribed c ∷ es) = if c == ch then none else view ch es
view ch (broadcasted reads patch ∷ es) =
    if patch == [] then view ch es else if_open (some patch) (view ch es)
view ch (read_by c ∷ es) = if c == ch then if_open none (view ch es) else view ch es
view ch (closed ∷ es) = none

push_latest :
    (reads : Bool) (patch : Bytes) (o : Option Bytes)
    → push_latest_update reads patch o ≡ some patch
unfolding push_latest_update
push_latest reads patch none = refl
push_latest reads patch (some held) = refl

lookup-push_all :
    (reads : ℕ → Bool) (patch : Bytes) (ch : ℕ) (m : Map ℕ (Option Bytes))
    → lookup ch (push_all reads patch m) ≡ if_open (some patch) (lookup ch m)
unfolding push_all lookup
lookup-push_all reads patch ch [] = refl
lookup-push_all reads patch ch ((c, buffer) ∷ m) = elim (Bool-cases (c == ch)) [
  | inl e ↦ rw e (ap some (push_latest (reads c) patch buffer))
  | inr e ↦ rw e (lookup-push_all reads patch ch m)
]

next-unsubscribe : (c : ℕ) (s : Subscribers) → (unsubscribe c s).next ≡ s.next
unfolding unsubscribe
next-unsubscribe c s = elim (Bool-cases (is_some (lookup c s.buffers))) [
  | inl e ↦ rw e
  | inr e ↦ rw e
]

next-broadcast :
    (reads : ℕ → Bool) (patch : Bytes) (s : Subscribers) → (broadcast reads patch s).next ≡ s.next
unfolding broadcast
next-broadcast reads patch s = elim (Bool-cases (patch == [])) [ inl e ↦ rw e | inr e ↦ rw e ]

next-read_from :
    (c : ℕ) (s : Subscribers) (o : Option (Option Bytes)) → (read_from c s o).next ≡ s.next
next-read_from c s none = refl
next-read_from c s (some buffer) = refl

next_lem : (es : List Event) → (after_events es).next ≡ made es
unfolding after_events step subscribe close_subscribers
next_lem [] = refl
next_lem (subscribed ∷ es) = ap suc (next_lem es)
next_lem (unsubscribed c ∷ es) = next-unsubscribe c (after_events es) ∙ next_lem es
next_lem (broadcasted reads patch ∷ es) = next-broadcast reads patch (after_events es) ∙ next_lem es
next_lem (read_by c ∷ es) = next-read_from c (after_events es) _ ∙ next_lem es
next_lem (closed ∷ es) = next_lem es

lookup-unsubscribe :
    (c ch : ℕ) (s : Subscribers)
    → lookup ch (unsubscribe c s).buffers ≡ (if c == ch then none else lookup ch s.buffers)
unfolding unsubscribe
lookup-unsubscribe c ch s = elim (Option-cases (lookup c s.buffers)) [
  | inl e ↦ rw e (elim (Bool-cases (c == ch)) [
    | inl k ↦ rw k (subst (λ x. lookup x s.buffers ≡ none) ((eq_iff c ch).0 k) e)
    | inr k ↦ rw k
  ])
  | inr (held, e) ↦ rw e (lookup-delete c ch s.buffers)
]

lookup-read_from :
    (c ch : ℕ) (s : Subscribers) (o : Option (Option Bytes))
    → lookup c s.buffers ≡ o
    → lookup ch (read_from c s o).buffers
      ≡ (if c == ch then if_open none (lookup ch s.buffers) else lookup ch s.buffers)
lookup-read_from c ch s none e = elim (Bool-cases (c == ch)) [
  | inl k ↦ let gone = subst (λ x. lookup x s.buffers ≡ none) ((eq_iff c ch).0 k) e in rw (k, gone)
  | inr k ↦ rw k
]
lookup-read_from c ch s (some buffer) e = elim (Bool-cases (c == ch)) [
  | inl k ↦
      let there = subst (λ x. lookup x s.buffers ≡ some buffer) ((eq_iff c ch).0 k) e in
      rw (lookup-insert, k, there)
  | inr k ↦ rw (lookup-insert, k)
]

lookup-broadcast :
    (reads : ℕ → Bool) (patch : Bytes) (ch : ℕ) (s : Subscribers)
    → lookup ch (broadcast reads patch s).buffers
      ≡ (if patch == [] then lookup ch s.buffers else if_open (some patch) (lookup ch s.buffers))
unfolding broadcast
lookup-broadcast reads patch ch s = elim (Bool-cases (patch == [])) [
  | inl e ↦ rw e
  | inr e ↦ rw e (lookup-push_all reads patch ch s.buffers)
]

-- After any events, whichever readers come between the selects of a push: a channel is open just where
-- it was made and not closed since, and its buffer holds the last patch that was sent since it was made
-- or last read, and no older one.
pub after_events_lem : (ch : ℕ) (es : List Event) → lookup ch (after_events es).buffers ≡ view ch es
unfolding after_events step subscribe close_subscribers no_subscribers lookup
after_events_lem ch [] = refl
after_events_lem ch (subscribed ∷ es) =
    lookup-insert (after_events es).next ch none (after_events es).buffers
    ∙ rw (next_lem es, after_events_lem ch es)
after_events_lem ch (unsubscribed c ∷ es) =
    lookup-unsubscribe c ch (after_events es) ∙ rw (after_events_lem ch es)
after_events_lem ch (broadcasted reads patch ∷ es) =
    lookup-broadcast reads patch ch (after_events es) ∙ rw (after_events_lem ch es)
after_events_lem ch (read_by c ∷ es) =
    lookup-read_from c ch (after_events es) _ refl ∙ rw (after_events_lem ch es)
after_events_lem ch (closed ∷ es) = refl
