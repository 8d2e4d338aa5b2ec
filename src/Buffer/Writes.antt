-- ===== src/Buffer/Writes.antt =====
-- What the queue's writes do to its files, whatever calls fail.
use homelab_inventory_agent.Prelude.{
  ℕ, List, [], ◌∷◌, Text, some, Result, ok, err, ◌≡◌, refl, Bool-cases, inl, inr, ◌==◌, ◌||◌,
  is_empty, length,
}
use homelab_inventory_agent.Exec.{continue, ◌>>=◌, map_error}
use homelab_inventory_agent.Os.{Node, Dir, Outcome, find, stat, call, call_with, same, found}
use homelab_inventory_agent.Buffer.{
  Limits, Entry, Queue, QueueError, Q, io, Json, add, check_new, must_be_new, entry_path, exceeds,
}

-- A result that is an error, with the files as they were.
abbrev pub Refused : {A : Type 0} → List (Text × Node) → Result QueueError A × Queue → Type 0
Refused nodes (ok a, q) = ⊥
Refused nodes (err e, q) = q.dir.nodes ≡ nodes

continue-Refused :
    {A B : Type 0} (nodes : List (Text × Node)) (x : Result QueueError A × Queue) (f : A → Q B)
    → Refused nodes x
    → Refused nodes (continue x.0 f x.1)
continue-Refused nodes (ok a, q) f h = absurd h
continue-Refused nodes (err e, q) f h = h

stat_with :
    (name : Text) (n : Node) (l : Limits) (os : List Outcome) (d : Dir)
    → find name d.nodes ≡ some n
    → let x = call_with (λ t d. (found (find name d.nodes), d)) same os d in
      Refused d.nodes (must_be_new (map_error QueueError.os x.0) (record { dir = x.1; limits = l }))
stat_with name n l [] d h = rw h refl
stat_with name n l (o ∷ rest) d h = elim (Bool-cases o.failed) [
  | inl f ↦ rw f refl
  | inr f ↦ rw (f, h) refl
]

check_new-Refused :
    (name : Text) (n : Node) (q : Queue)
    → find name q.dir.nodes ≡ some n
    → Refused q.dir.nodes (check_new name q)
unfolding check_new io stat call
check_new-Refused name n q h = stat_with name n q.limits q.dir.outcomes q.dir h

-- A sequence number that is in the queue is refused, and no file changes, whatever fails.
pub add-Refused :
    (json : Json ℕ) (e : Entry) (n : Node) (q : Queue)
    → find (entry_path e.sequence) q.dir.nodes ≡ some n
    → Refused q.dir.nodes (add json e q)
unfolding add ◌>>=◌
add-Refused json e n q h = elim (Bool-cases (e.sequence == 0 || is_empty e.body)) [
  | inl bad ↦ rw bad refl
  | inr good ↦ rw good (elim (Bool-cases (exceeds (length e.body) q.limits.bytes)) [
    | inl large ↦ rw large refl
    | inr small ↦ rw small (continue-Refused q.dir.nodes _ _ (check_new-Refused _ n q h))
  ])
]
