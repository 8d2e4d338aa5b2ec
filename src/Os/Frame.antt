-- ===== src/Os/Frame.antt =====
-- The calls of package os and the nodes behind the names that they do not mention.
use homelab_inventory_agent.Prelude.{
  List, Text, text_eq_iff, Result, ok, err, ◌≡◌, ◌≢◌, refl, arith, Option, none, some, ◌∙◌,
  Bool-cases, inl, inr, [], ◌∷◌, ◌++◌,
}
use homelab_inventory_agent.Exec.{pure, raise, continue, ◌>>=◌}
use homelab_inventory_agent.Os.{
  Dir, Outcome, Io, call, call_with, remove_node, create_node, rename_node, same, file_body,
  not_exist, op_failed, Node, file, directory, OsError, find, find-store, find-without, store,
  without, read_file, stat, read_dir, remove, create_temp, write, plain, rename,
}

-- `m` leaves the node behind `name` alone.
pub record Leaves {A : Type 0} (name : Text) (m : Io A) : Type 0 where
  pub at : (d : Dir) → find name (m d).1.nodes ≡ find name d.nodes

module _ {A : Type 0} (name : Text) where
  pub Leaves-pure : (a : A) → Leaves name (pure a)
  Leaves-pure a = record { at = λ d. refl }

  pub Leaves-raise : (e : OsError) → Leaves {A = A} name (raise e)
  Leaves-raise e = record { at = λ d. refl }

module _ {A B : Type 0} (name : Text) where
  continue-at :
      (r : Result OsError A) (f : A → Io B) (d : Dir)
      → ((a : A) → Leaves name (f a))
      → find name (continue r f d).1.nodes ≡ find name d.nodes
  continue-at (ok a) f d h = (h a).at d
  continue-at (err e) f d h = refl

  pub Leaves-bind :
      (m : Io A) (f : A → Io B)
      → Leaves name m
      → ((a : A) → Leaves name (f a))
      → Leaves name (m >>= f)
  unfolding ◌>>=◌
  Leaves-bind m f hm hf = record { at = λ d. continue-at (m d).0 f (m d).1 hf ∙ hm.at d }

other-store :
    (name other : Text) (n : Node) (l : List (Text × Node))
    → other ≢ name
    → find name (store other n l) ≡ find name l
other-store name other n l ne = ground (arith, find-store other name n l, text_eq_iff other name)

other-without :
    (name other : Text) (l : List (Text × Node))
    → other ≢ name
    → find name (without other l) ≡ find name l
other-without name other l ne = ground (arith, find-without other name l, text_eq_iff other name)

module _ {A : Type 0} (name : Text) where
  call_with-at :
      (act : Text → Dir → Result OsError A × Dir) (fail : Text → Dir → Dir)
      → ((t : Text) (d : Dir) → find name (act t d).1.nodes ≡ find name d.nodes)
      → ((t : Text) (d : Dir) → find name (fail t d).nodes ≡ find name d.nodes)
      → (os : List Outcome) (d : Dir)
      → find name (call_with act fail os d).1.nodes ≡ find name d.nodes
  call_with-at act fail ha hf [] d = ha [] d
  call_with-at act fail ha hf (o ∷ rest) d = elim (Bool-cases o.failed) [
    | inl e ↦ rw e (hf o.text (record d { outcomes = rest }))
    | inr e ↦ rw e (ha o.text (record d { outcomes = rest }))
  ]

  pub Leaves-call :
      (act : Text → Dir → Result OsError A × Dir) (fail : Text → Dir → Dir)
      → ((t : Text) (d : Dir) → find name (act t d).1.nodes ≡ find name d.nodes)
      → ((t : Text) (d : Dir) → find name (fail t d).nodes ≡ find name d.nodes)
      → Leaves name (call act fail)
  unfolding call
  Leaves-call act fail ha hf = record { at = λ d. call_with-at act fail ha hf d.outcomes d }

module _ (name : Text) where
  pub Leaves-plain : Leaves name plain
  unfolding plain
  Leaves-plain = Leaves-call name _ _ (λ t d. refl) (λ t d. refl)

  pub Leaves-read_file : (other : Text) → Leaves name (read_file other)
  unfolding read_file
  Leaves-read_file other = Leaves-call name _ _ (λ t d. refl) (λ t d. refl)

  pub Leaves-read_dir : Leaves name read_dir
  unfolding read_dir
  Leaves-read_dir = Leaves-call name _ _ (λ t d. refl) (λ t d. refl)

  pub Leaves-stat : (other : Text) → Leaves name (stat other)
  unfolding stat
  Leaves-stat other = Leaves-call name _ _ (λ t d. refl) (λ t d. refl)

  pub Leaves-write : (other body : Text) → other ≢ name → Leaves name (write other body)
  unfolding write
  Leaves-write other body ne =
      Leaves-call name _ _ (λ t d. other-store name other _ d.nodes ne)
        (λ t d. other-store name other _ d.nodes ne)

  remove_node-at :
      (o : Option Node) (other : Text) (d : Dir)
      → other ≢ name
      → find name (remove_node o other d).1.nodes ≡ find name d.nodes
  remove_node-at none other d ne = refl
  remove_node-at (some directory) other d ne = refl
  remove_node-at (some (file b)) other d ne = other-without name other d.nodes ne

  pub Leaves-remove : (other : Text) → other ≢ name → Leaves name (remove other)
  unfolding remove
  Leaves-remove other ne =
      Leaves-call name _ _ (λ t d. remove_node-at (find other d.nodes) other d ne) (λ t d. refl)

  create_node-at :
      (o : Option Node) (other : Text) (d : Dir)
      → other ≢ name
      → find name (create_node o other d).1.nodes ≡ find name d.nodes
  create_node-at none other d ne = other-store name other _ d.nodes ne
  create_node-at (some n) other d ne = refl

  -- A temporary file has a name behind its prefix.
  pub Leaves-create_temp :
      (prefix : Text) → ((t : Text) → prefix ++ t ≢ name) → Leaves name (create_temp prefix)
  unfolding create_temp
  Leaves-create_temp prefix ne =
      Leaves-call name _ _ (λ t d. create_node-at (find (prefix ++ t) d.nodes) _ d (ne t))
        (λ t d. refl)

  rename_node-at :
      (o : Option Node) (from to : Text) (d : Dir)
      → from ≢ name
      → to ≢ name
      → find name (rename_node o from to d).1.nodes ≡ find name d.nodes
  rename_node-at none from to d nf nt = refl
  rename_node-at (some n) from to d nf nt =
      other-store name to n _ nt ∙ other-without name from d.nodes nf

  pub Leaves-rename : (from to : Text) → from ≢ name → to ≢ name → Leaves name (rename from to)
  unfolding rename
  Leaves-rename from to nf nt =
      Leaves-call name _ _ (λ t d. rename_node-at (find from d.nodes) from to d nf nt) (λ t d. refl)

pub ruleset leaves_rules = (
  Leaves-pure, Leaves-raise, Leaves-bind, Leaves-plain, Leaves-read_file, Leaves-read_dir,
  Leaves-stat, Leaves-write, Leaves-remove,
)

-- Reading a file that is there: its body, or a failure; no node changes.
abbrev pub ReadOf : Text → List (Text × Node) → Result OsError Text × Dir → Type 0
ReadOf body nodes (ok b, d) = (b ≡ body) × (d.nodes ≡ nodes)
ReadOf body nodes (err not_exist, d) = ⊥
ReadOf body nodes (err op_failed, d) = d.nodes ≡ nodes

read_with :
    (name body : Text) (os : List Outcome) (d : Dir)
    → find name d.nodes ≡ some (file body)
    → ReadOf body d.nodes (call_with (λ t d. (file_body (find name d.nodes), d)) same os d)
read_with name body [] d h = rw h (refl, refl)
read_with name body (o ∷ rest) d h = elim (Bool-cases o.failed) [
  | inl f ↦ rw f refl
  | inr f ↦ rw (f, h) (refl, refl)
]

pub read_file-ReadOf :
    (name body : Text) (d : Dir)
    → find name d.nodes ≡ some (file body)
    → ReadOf body d.nodes (read_file name d)
unfolding read_file call
read_file-ReadOf name body d h = read_with name body d.outcomes d h

plain_with :
    (os : List Outcome) (d : Dir) → (call_with (λ t d. (ok tt, d)) same os d).1.nodes ≡ d.nodes
plain_with [] d = refl
plain_with (o ∷ rest) d = elim (Bool-cases o.failed) [ inl f ↦ rw f refl | inr f ↦ rw f refl ]

pub plain-nodes : (d : Dir) → (plain d).1.nodes ≡ d.nodes
unfolding plain call
plain-nodes d = plain_with d.outcomes d
