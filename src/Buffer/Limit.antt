-- ===== src/Buffer/Limit.antt =====
-- The loop of enforceLimitsLocked: the files that it removes, and the entries that it leaves.
use homelab_inventory_agent.Prelude.{
  ℕ, suc, ◌+◌, ◌-◌, ◌≤◌, List, [], ◌∷◌, ◌++◌, length, length-append, Text, text_eq, any, Bool, true,
  false, Option, none, some, Result, ok, err, ◌≡◌, refl, sym, ap, ◌∙◌, arith, Bool-cases, inl, inr,
  if◌then◌else◌,
}
use homelab_inventory_agent.Exec.{>>=-eq-ok, map_error, zoom}
use homelab_inventory_agent.Os.{
  Dir, Node, OsError, Outcome, file, directory, find, find-without, without, remove, remove_node,
  call, call_with, same,
}
use homelab_inventory_agent.Buffer.{
  Limits, Entry, Queue, QueueError, os, size_of, over, drop_oldest, io, entry_path,
}

-- A removal that succeeded has removed the file, and no other.
abbrev Cleared : Text → Dir → Result OsError (Unit {0}) × Dir → Type 0
Cleared name d (ok u, e) = e.nodes ≡ without name d.nodes
Cleared name d (err x, e) = Unit

remove_node-Cleared :
    (o : Option Node) (name : Text) (d : Dir) → Cleared name d (remove_node o name d)
remove_node-Cleared none name d = tt
remove_node-Cleared (some directory) name d = tt
remove_node-Cleared (some (file b)) name d = refl

remove_with-Cleared :
    (outcomes : List Outcome) (name : Text) (d : Dir)
    → Cleared name d (call_with (λ t f. remove_node (find name f.nodes) name f) same outcomes d)
remove_with-Cleared [] name d = remove_node-Cleared (find name d.nodes) name d
remove_with-Cleared (o ∷ rest) name d = elim (Bool-cases o.failed) [
  | inl failed ↦ rw failed tt
  | inr done ↦ rw done (remove_node-Cleared (find name d.nodes) name (record d { outcomes = rest }))
]

remove-Cleared : (name : Text) (d : Dir) → Cleared name d (remove name d)
unfolding remove call
remove-Cleared name d = remove_with-Cleared d.outcomes name d

put_back :
    (name : Text) (q q1 : Queue) (x : Result OsError (Unit {0}) × Dir) (u : Unit {0})
    → Cleared name q.dir x
    → ◌≡◌ {A = Result QueueError (Unit {0}) × Queue}
        (map_error os x.0, record q { dir = x.1 })
        (ok u, q1)
    → q1.dir.nodes ≡ without name q.dir.nodes
put_back name q q1 (ok v, d) u cleared h = ap (λ y. y.1.dir.nodes) (sym h) ∙ cleared
put_back name q q1 (err e, d) u cleared h = ground arith

removed_nodes :
    (name : Text) (q q1 : Queue) (u : Unit {0})
    → io (remove name) q ≡ (ok u, q1)
    → q1.dir.nodes ≡ without name q.dir.nodes
unfolding io zoom
removed_nodes name q q1 u h = put_back name q q1 (remove name q.dir) u (remove-Cleared name q.dir) h

-- The name is that of one of the entries.
abbrev pub names_one : Text → List Entry → Bool
names_one name es = any (λ e. text_eq (entry_path e.sequence) name) es

-- What a loop that ended without an error has done to entries that stand in the order of their numbers.
pub record Trimmed (l : Limits) (es : List Entry) (n m : ℕ) (q q' : Queue) : Type 0 where
  pub old : List Entry
  pub new : List Entry
  pub split : old ++ new ≡ es
  pub number : m ≡ n + length old
  pub within : over l (length new) (size_of new) ≡ false
  pub longest :
      (older newer : List Entry)
      → older ++ newer ≡ es
      → over l (length newer) (size_of newer) ≡ false
      → length newer ≤ length new
  pub gone :
      (name : Text)
      → find name q'.dir.nodes ≡ (if names_one name old then none else find name q.dir.nodes)

end_length : (older newer es : List Entry) → older ++ newer ≡ es → length newer ≤ length es
end_length older newer es h =
    let n : length (older ++ newer) ≡ length es = ap length h in
    omega (arith, length-append older newer)

stopped :
    (l : Limits) (es : List Entry) (n m : ℕ) (q q' : Queue)
    → over l (length es) (size_of es) ≡ false
    → (n ≡ m) × (q ≡ q')
    → Trimmed l es n m q q'
stopped l es n m q q' within (same_number, same_queue) = record {
  old = [];
  new = es;
  split = refl;
  number = omega arith;
  within = within;
  longest = λ older newer h fits. end_length older newer es h;
  gone = λ name. rw same_queue refl;
}

-- One round of the loop that goes on.
drop_one :
    (l : Limits) (e : Entry) (es : List Entry) (n m : ℕ) (q q' : Queue)
    → over l (suc (length es)) (length e.body + size_of es) ≡ true
    → drop_oldest l (e ∷ es) (size_of (e ∷ es)) n q ≡ (ok m, q')
    → (q1 : Queue) × (q1.dir.nodes ≡ without (entry_path e.sequence) q.dir.nodes)
      × (drop_oldest l es (size_of es) (suc n) q1 ≡ (ok m, q'))
unfolding drop_oldest size_of
drop_one l e es n m q q' more h =
    let (u, q1, removed, later) =
      >>=-eq-ok (io (remove (entry_path e.sequence))) _ q (rw more at h) in
    let back : length e.body + size_of es - length e.body ≡ size_of es = omega arith in
    (q1, removed_nodes _ q q1 u removed, rw back at later)

drop_stops :
    (l : Limits) (e : Entry) (es : List Entry) (n m : ℕ) (q q' : Queue)
    → over l (suc (length es)) (length e.body + size_of es) ≡ false
    → drop_oldest l (e ∷ es) (size_of (e ∷ es)) n q ≡ (ok m, q')
    → (n ≡ m) × (q ≡ q')
unfolding drop_oldest size_of
drop_stops l e es n m q q' done h = ground (arith, rw done at h)

drop_none :
    (l : Limits) (n m : ℕ) (q q' : Queue)
    → drop_oldest l [] (size_of []) n q ≡ (ok m, q')
    → (over l 0 0 ≡ false) × (n ≡ m) × (q ≡ q')
unfolding drop_oldest size_of
drop_none l n m q q' h = elim (Bool-cases (over l 0 0)) [
  | inl stop ↦ ground (arith, rw stop at h)
  | inr done ↦ ground (arith, rw done at h)
]

abbrev behind_first : List Entry → List Entry
behind_first [] = []
behind_first (e ∷ es) = es

module _ (l : Limits) (e : Entry) (es : List Entry)
    (more : over l (suc (length es)) (length e.body + size_of es) ≡ true) where
  longest-cons :
      (bound : ℕ)
      → ((older newer : List Entry)
          → older ++ newer ≡ es
          → over l (length newer) (size_of newer) ≡ false
          → length newer ≤ bound)
      → (older newer : List Entry) → older ++ newer ≡ e ∷ es
      → over l (length newer) (size_of newer) ≡ false
      → length newer ≤ bound
  unfolding size_of
  longest-cons bound h [] newer same_list fits =
      let whole : over l (length (e ∷ es)) (size_of (e ∷ es)) ≡ false = rw same_list at fits in
      ground (arith, more, whole)
  longest-cons bound h (x ∷ older) newer same_list fits =
      h older newer (ap behind_first same_list) fits

  cons-Trimmed :
      (n m : ℕ) (q q1 q' : Queue)
      → q1.dir.nodes ≡ without (entry_path e.sequence) q.dir.nodes
      → Trimmed l es (suc n) m q1 q'
      → Trimmed l (e ∷ es) n m q q'
  cons-Trimmed n m q q1 q' removed t = record {
    old = e ∷ t.old;
    new = t.new;
    split = ap (λ r. e ∷ r) t.split;
    number = let k = t.number in omega (arith, k);
    within = t.within;
    longest = longest-cons (length t.new) t.longest;
    gone = λ name.
        let first = find-without (entry_path e.sequence) name q.dir.nodes in
        let later = t.gone name in ground (arith, rw removed at later, first);
  }

-- A loop that ends without an error has split the entries in two: the oldest, which it has counted and
-- whose files are gone, and the newest, which are within the limits. No longer end of the entries is
-- within them, and what stands under any other name is as it was.
pub drop_oldest-Trimmed :
    (l : Limits) (es : List Entry) (n m : ℕ) (q q' : Queue)
    → drop_oldest l es (size_of es) n q ≡ (ok m, q')
    → Trimmed l es n m q q'
unfolding size_of
drop_oldest-Trimmed l [] n m q q' h =
    let (done, a, b) = drop_none l n m q q' h in stopped l [] n m q q' done (a, b)
drop_oldest-Trimmed l (e ∷ es) n m q q' h =
    elim (Bool-cases (over l (suc (length es)) (length e.body + size_of es))) [
      | inl more ↦
          let (q1, removed, later) = drop_one l e es n m q q' more h in
          cons-Trimmed l e es more n m q q1 q' removed
            (drop_oldest-Trimmed l es (suc n) m q1 q' later)
      | inr done ↦ stopped l (e ∷ es) n m q q' done (drop_stops l e es n m q q' done h)
    ]
