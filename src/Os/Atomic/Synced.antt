-- ===== src/Os/Atomic/Synced.antt =====
-- internal/agentupdate/platform.go, atomicWrite: the atomic write, and then the synchronization of the
-- directory, which may fail when the new contents are in place.
use homelab_inventory_agent.Prelude.{
  Text, ◌++◌, Result, ok, err, ◌≡◌, ◌≢◌, sym, ◌∙◌, some, ◌⊎◌, inl, inr,
}
use homelab_inventory_agent.Exec.{continue, ◌>>=◌, ◌>>◌}
use homelab_inventory_agent.Os.{Dir, Io, OsError, file, find, create_temp, plain, rename, remove}
use homelab_inventory_agent.Os.Frame.{
  Leaves, Leaves-bind, Leaves-plain, Leaves-remove, Leaves-create_temp, Leaves-rename,
}
use homelab_inventory_agent.Os.Atomic.{
  fill, finally_remove, fill-Leaves, OnOk, Holds, fill-Holds, Replaced, rename-Replaced, IsTemp,
  create_temp-IsTemp,
}

unfoldable pub synced_write : Text → Text → Text → Io (Unit {0})
synced_write prefix target body = do
  name ← create_temp prefix
  finally_remove name (do fill name body; rename name target; plain; plain)

-- The new contents if the write works; the old or the new ones if not.
abbrev pub Landed : Text → Text → Dir → Result OsError (Unit {0}) × Dir → Type 0
Landed target body d (ok u, d') = find target d'.nodes ≡ some (file body)
Landed target body d (err e, d') =
    (find target d'.nodes ≡ some (file body)) ⊎ (find target d'.nodes ≡ find target d.nodes)

kept-Landed :
    (target body : Text) (d d1 : Dir) (x : Result OsError (Unit {0}) × Dir)
    → find target x.1.nodes ≡ find target d1.nodes
    → find target d1.nodes ≡ some (file body)
    → Landed target body d x
kept-Landed target body d d1 (ok u, d') e h = e ∙ h
kept-Landed target body d d1 (err x, d') e h = inl (e ∙ h)

after_rename :
    (target body : Text) (d0 : Dir) (x : Result OsError (Unit {0}) × Dir)
    → Replaced target body d0 x
    → Landed target body d0 (continue x.0 (λ _. do plain; plain) x.1)
after_rename target body d0 (ok u, d) h =
    kept-Landed target body d0 d ((do plain; plain) d)
      ((Leaves-bind target plain (λ _. plain) (Leaves-plain target) (λ _. Leaves-plain target)).at
        d)
      h
after_rename target body d0 (err e, d) h = inr h

after_fill :
    (name target body : Text) (d0 : Dir) (x : Result OsError (Unit {0}) × Dir)
    → OnOk (Holds name body) x
    → find target x.1.nodes ≡ find target d0.nodes
    → Landed target body d0 (continue x.0 (λ _. do rename name target; plain; plain) x.1)
unfolding ◌>>=◌
after_fill name target body d0 (ok u, d) h e =
    after_rename target body d0 (rename name target d) (rename-Replaced name target body d0 d h e)
after_fill name target body d0 (err x, d) h e = inr e

removed-Landed :
    (name target body : Text) (d0 : Dir) (x : Result OsError (Unit {0}) × Dir)
    → name ≢ target
    → Landed target body d0 x
    → Landed target body d0 (x.0, (remove name x.1).1)
removed-Landed name target body d0 (ok u, d) ne h = (Leaves-remove target name ne).at d ∙ h
removed-Landed name target body d0 (err e, d) ne (inl h) =
    inl ((Leaves-remove target name ne).at d ∙ h)
removed-Landed name target body d0 (err e, d) ne (inr h) =
    inr ((Leaves-remove target name ne).at d ∙ h)

after_create :
    (prefix target body : Text) (d0 : Dir) (x : Result OsError Text × Dir)
    → ((t : Text) → prefix ++ t ≢ target)
    → IsTemp prefix x
    → find target x.1.nodes ≡ find target d0.nodes
    → Landed target body d0 (
        continue x.0
          (λ name. finally_remove name (do fill name body; rename name target; plain; plain))
          x.1)
unfolding finally_remove ◌>>=◌
after_create prefix target body d0 (ok name, d) ne (t, named) e =
    let other : name ≢ target = λ same_name. ne t (sym named ∙ same_name) in
    removed-Landed name target body d0 _ other (
      after_fill name target body d0 (fill name body d) (fill-Holds name body d)
        ((fill-Leaves target name body other).at d ∙ e))
after_create prefix target body d0 (err x, d) ne named e = inr e

-- Whatever calls fail, a write that returns nil has put the body in the target, and one that returns
-- an error has left there the old contents or the new ones, if the target is no temporary name.
pub synced_write-Landed :
    (prefix target body : Text) (d : Dir)
    → ((t : Text) → prefix ++ t ≢ target)
    → Landed target body d (synced_write prefix target body d)
unfolding synced_write ◌>>=◌
synced_write-Landed prefix target body d ne =
    after_create prefix target body d (create_temp prefix d) ne (create_temp-IsTemp prefix d)
      ((Leaves-create_temp target prefix ne).at d)

after_create-Leaves :
    (prefix name target body : Text) (x : Result OsError Text × Dir) (d0 : Dir)
    → name ≢ target
    → ((t : Text) → prefix ++ t ≢ name)
    → IsTemp prefix x
    → find name x.1.nodes ≡ find name d0.nodes
    → find name
        (continue x.0
          (λ temp. finally_remove temp (do fill temp body; rename temp target; plain; plain))
          x.1).1.nodes
      ≡ find name d0.nodes
unfolding finally_remove
after_create-Leaves prefix name target body (ok temp, d) d0 ne nt (t, named) e =
    let other : temp ≢ name = λ same_name. nt t (sym named ∙ same_name) in
    (Leaves-remove name temp other).at _
    ∙ (Leaves-bind name _ _ (fill-Leaves name temp body other) (λ _.
          Leaves-bind name _ _ (Leaves-rename name temp target other (λ e. ne (sym e)))
            (λ _. Leaves-bind name _ _ (Leaves-plain name) (λ _. Leaves-plain name)))).at
        d
    ∙ e
after_create-Leaves prefix name target body (err x, d) d0 ne nt named e = e

-- Every other file that is no temporary one is left alone.
pub synced_write-Leaves :
    (prefix name target body : Text)
    → name ≢ target
    → ((t : Text) → prefix ++ t ≢ name)
    → Leaves name (synced_write prefix target body)
unfolding synced_write ◌>>=◌
synced_write-Leaves prefix name target body ne nt = record {
  at = λ d.
      after_create-Leaves prefix name target body (create_temp prefix d) d ne nt
        (create_temp-IsTemp prefix d) ((Leaves-create_temp name prefix nt).at d);
}
