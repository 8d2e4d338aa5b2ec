-- ===== src/Os/Atomic.antt =====
-- Writing a file through a temporary one: CreateTemp, Chmod, Write, Sync, Close, Rename, with the
-- deferred removal of the temporary name, and what a reader of the target sees when a call fails.
pub mod Synced
use homelab_inventory_agent.Prelude.{
  Text, ◌++◌, Result, ok, err, ◌≡◌, ◌≢◌, refl, Option, none, some, inl, inr, ◌∙◌, List, [], ◌∷◌,
  Bool-cases, text_eq_refl, sym,
}
use homelab_inventory_agent.Exec.{continue, ◌>>=◌, ◌>>◌}
use homelab_inventory_agent.Os.Frame.{
  Leaves, Leaves-bind, Leaves-plain, Leaves-remove, Leaves-create_temp, Leaves-rename, leaves_rules,
}
use homelab_inventory_agent.Os.{
  Dir, Outcome, call, call_with, store, find-store, rename_node, create_node, same, Io, Node, file,
  OsError, find, create_temp, write, plain, remove, rename,
}

-- `if err := step; err != nil { _ = temporary.Close(); return err }`
unfoldable pub closing : Result OsError (Unit {0}) → Io (Unit {0})
closing (ok u) d = (ok u, d)
closing (err e) d = (err e, (plain d).1)

abbrev pub or_close : Io (Unit {0}) → Io (Unit {0})
or_close m d = let (r, d') = m d in closing r d'

-- `defer os.Remove(name)`: its own error is dropped.
unfoldable pub finally_remove : {A : Type 0} → Text → Io A → Io A
finally_remove name m d = let (r, d') = m d in (r, (remove name d').1)

-- Chmod, Write, Sync and Close of the temporary file.
unfoldable pub fill : Text → Text → Io (Unit {0})
unfolding closing
fill name body = do or_close plain; or_close (write name body); or_close plain; plain

unfoldable pub atomic_write : Text → Text → Text → Io (Unit {0})
unfolding finally_remove fill
atomic_write prefix target body = do
  name ← create_temp prefix
  finally_remove name (do fill name body; rename name target)

closing-Leaves :
    (name : Text) (r : Result OsError (Unit {0})) (d : Dir)
    → find name (closing r d).1.nodes ≡ find name d.nodes
unfolding closing
closing-Leaves name (ok u) d = refl
closing-Leaves name (err e) d = (Leaves-plain name).at d

close-Leaves : (name : Text) (m : Io (Unit {0})) → Leaves name m → Leaves name (or_close m)
close-Leaves name m h = record { at = λ d. closing-Leaves name (m d).0 (m d).1 ∙ h.at d }

fill-Leaves : (name other body : Text) → other ≢ name → Leaves name (fill other body)
unfolding fill
fill-Leaves name other body ne = search (leaves_rules, close-Leaves)

-- The directory that a successful call ends in.
abbrev OnOk : {A : Type 0} → (Dir → Type 0) → Result OsError A × Dir → Type 0
OnOk P (ok a, d) = P d
OnOk P (err e, d) = Unit

continue-OnOk :
    {A B : Type 0} (P Q : Dir → Type 0) (x : Result OsError A × Dir) (f : A → Io B)
    → OnOk Q x
    → ((a : A) (d : Dir) → Q d → OnOk P (f a d))
    → OnOk P (continue x.0 f x.1)
continue-OnOk P Q (ok a, d) f h k = k a d h
continue-OnOk P Q (err e, d) f h k = tt

closing-OnOk :
    (P : Dir → Type 0) (x : Result OsError (Unit {0}) × Dir) → OnOk P x → OnOk P (closing x.0 x.1)
unfolding closing
closing-OnOk P (ok u, d) h = h
closing-OnOk P (err e, d) h = tt

OnOk-any : {A : Type 0} (x : Result OsError A × Dir) → OnOk (λ d. Unit) x
OnOk-any (ok a, d) = tt
OnOk-any (err e, d) = tt

abbrev Holds : Text → Text → Dir → Type 0
Holds name body d = find name d.nodes ≡ some (file body)

OnOk-kept :
    {A : Type 0} (name body : Text) (d : Dir) (x : Result OsError A × Dir)
    → find name x.1.nodes ≡ find name d.nodes
    → Holds name body d
    → OnOk (Holds name body) x
OnOk-kept name body d (ok a, d') e h = e ∙ h
OnOk-kept name body d (err x, d') e h = tt

write_with :
    (name body : Text) (os : List Outcome) (d : Dir)
    → OnOk (Holds name body) (
        call_with
          (λ t d. (ok tt, record d { nodes = store name (file body) d.nodes }))
          (λ t d. record d { nodes = store name (file t) d.nodes })
          os
          d)
write_with name body [] d = rw (find-store, text_eq_refl)
write_with name body (o ∷ os) d = elim (Bool-cases o.failed) [
  | inl e ↦ rw e tt
  | inr e ↦ rw (e, find-store, text_eq_refl)
]

write-Holds : (name body : Text) (d : Dir) → OnOk (Holds name body) (write name body d)
unfolding write call
write-Holds name body d = write_with name body d.outcomes d

fill-Holds : (name body : Text) (d : Dir) → OnOk (Holds name body) (fill name body d)
unfolding fill ◌>>=◌
fill-Holds name body d =
    continue-OnOk _ (λ d. Unit) (or_close plain d) _ (OnOk-any _)
      (λ _ d1 _.
        continue-OnOk _ (Holds name body) (or_close (write name body) d1) _
          (closing-OnOk _ (write name body d1) (write-Holds name body d1))
          (λ _ d2 h2.
            continue-OnOk _ (Holds name body) (or_close plain d2) _
              (OnOk-kept name body d2 _ ((close-Leaves name plain (Leaves-plain name)).at d2) h2)
              (λ _ d3 h3. OnOk-kept name body d3 _ ((Leaves-plain name).at d3) h3)))

-- What a write of `target` ends in: the new contents, or an error and the old ones.
abbrev pub Replaced : Text → Text → Dir → Result OsError (Unit {0}) × Dir → Type 0
Replaced target body d (ok u, d') = find target d'.nodes ≡ some (file body)
Replaced target body d (err e, d') = find target d'.nodes ≡ find target d.nodes

rename_node-Replaced :
    (o : Option Node) (name target body : Text) (d0 d : Dir)
    → o ≡ some (file body)
    → find target d.nodes ≡ find target d0.nodes
    → Replaced target body d0 (rename_node o name target d)
rename_node-Replaced none name target body d0 d h e = e
rename_node-Replaced (some n) name target body d0 d h e = rw (find-store, text_eq_refl) h

rename_with :
    (name target body : Text) (d0 : Dir) (os : List Outcome) (d : Dir)
    → Holds name body d
    → find target d.nodes ≡ find target d0.nodes
    → Replaced target body d0
        (call_with (λ t d. rename_node (find name d.nodes) name target d) same os d)
rename_with name target body d0 [] d h e =
    rename_node-Replaced (find name d.nodes) name target body d0 d h e
rename_with name target body d0 (o ∷ os) d h e = elim (Bool-cases o.failed) [
  | inl f ↦ rw f e
  | inr f ↦ rw f (rename_node-Replaced (find name d.nodes) name target body d0 _ h e)
]

rename-Replaced :
    (name target body : Text) (d0 d : Dir)
    → Holds name body d
    → find target d.nodes ≡ find target d0.nodes
    → Replaced target body d0 (rename name target d)
unfolding rename call
rename-Replaced name target body d0 d = rename_with name target body d0 d.outcomes d

after_fill :
    (name target body : Text) (d0 : Dir) (x : Result OsError (Unit {0}) × Dir)
    → OnOk (Holds name body) x
    → find target x.1.nodes ≡ find target d0.nodes
    → Replaced target body d0 (continue x.0 (λ _. rename name target) x.1)
after_fill name target body d0 (ok u, d) h e = rename-Replaced name target body d0 d h e
after_fill name target body d0 (err x, d) h e = e

removed-Replaced :
    (name target body : Text) (d0 : Dir) (x : Result OsError (Unit {0}) × Dir)
    → name ≢ target
    → Replaced target body d0 x
    → Replaced target body d0 (x.0, (remove name x.1).1)
removed-Replaced name target body d0 (ok u, d) ne h = (Leaves-remove target name ne).at d ∙ h
removed-Replaced name target body d0 (err e, d) ne h = (Leaves-remove target name ne).at d ∙ h

-- A temporary name begins with the prefix.
abbrev IsTemp : Text → Result OsError Text × Dir → Type 0
IsTemp prefix (ok name, d) = (t : Text) × (name ≡ prefix ++ t)
IsTemp prefix (err e, d) = Unit

create_node-IsTemp :
    (o : Option Node) (prefix t : Text) (d : Dir) → IsTemp prefix (create_node o (prefix ++ t) d)
create_node-IsTemp none prefix t d = (t, refl)
create_node-IsTemp (some n) prefix t d = tt

create_with :
    (prefix : Text) (os : List Outcome) (d : Dir)
    → IsTemp prefix
        (call_with (λ t d. create_node (find (prefix ++ t) d.nodes) (prefix ++ t) d) same os d)
create_with prefix [] d = create_node-IsTemp (find (prefix ++ []) d.nodes) prefix [] d
create_with prefix (o ∷ os) d = elim (Bool-cases o.failed) [
  | inl f ↦ rw f tt
  | inr f ↦ rw f (create_node-IsTemp (find (prefix ++ o.text) d.nodes) prefix o.text _)
]

create_temp-IsTemp : (prefix : Text) (d : Dir) → IsTemp prefix (create_temp prefix d)
unfolding create_temp call
create_temp-IsTemp prefix d = create_with prefix d.outcomes d

after_create :
    (prefix target body : Text) (d0 : Dir) (x : Result OsError Text × Dir)
    → ((t : Text) → prefix ++ t ≢ target)
    → IsTemp prefix x
    → find target x.1.nodes ≡ find target d0.nodes
    → Replaced target body d0
        (continue x.0 (λ name. finally_remove name (do fill name body; rename name target)) x.1)
unfolding finally_remove ◌>>=◌
after_create prefix target body d0 (ok name, d) ne (t, named) e =
    let other : name ≢ target = λ same_name. ne t (sym named ∙ same_name) in
    removed-Replaced name target body d0 _ other (
      after_fill name target body d0 (fill name body d) (fill-Holds name body d)
        ((fill-Leaves target name body other).at d ∙ e))
after_create prefix target body d0 (err x, d) ne named e = e

-- Whatever calls fail, an atomic write that returns nil has put the body in the target, and one that
-- returns an error has left the target as it was, if the target is no temporary name.
pub atomic_write-Replaced :
    (prefix target body : Text) (d : Dir)
    → ((t : Text) → prefix ++ t ≢ target)
    → Replaced target body d (atomic_write prefix target body d)
unfolding atomic_write ◌>>=◌
atomic_write-Replaced prefix target body d ne =
    after_create prefix target body d (create_temp prefix d) ne (create_temp-IsTemp prefix d)
      ((Leaves-create_temp target prefix ne).at d)

after_create-Leaves :
    (prefix name target body : Text) (x : Result OsError Text × Dir) (d0 : Dir)
    → name ≢ target
    → ((t : Text) → prefix ++ t ≢ name)
    → IsTemp prefix x
    → find name x.1.nodes ≡ find name d0.nodes
    → find name
        (continue x.0
          (λ temp. finally_remove temp (do fill temp body; rename temp target))
          x.1).1.nodes
      ≡ find name d0.nodes
unfolding finally_remove
after_create-Leaves prefix name target body (ok temp, d) d0 ne nt (t, named) e =
    let other : temp ≢ name = λ same_name. nt t (sym named ∙ same_name) in
    (Leaves-remove name temp other).at _
    ∙ (Leaves-bind name _ _ (fill-Leaves name temp body other)
          (λ _. Leaves-rename name temp target other (λ e. ne (sym e)))).at
        d
    ∙ e
after_create-Leaves prefix name target body (err x, d) d0 ne nt named e = e

-- Every other file that is no temporary one is left alone.
pub atomic_write-Leaves :
    (prefix name target body : Text)
    → name ≢ target
    → ((t : Text) → prefix ++ t ≢ name)
    → Leaves name (atomic_write prefix target body)
unfolding atomic_write ◌>>=◌
atomic_write-Leaves prefix name target body ne nt = record {
  at = λ d.
      after_create-Leaves prefix name target body (create_temp prefix d) d ne nt
        (create_temp-IsTemp prefix d) ((Leaves-create_temp name prefix nt).at d);
}
