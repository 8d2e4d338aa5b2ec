-- ===== src/Identity/Persist.antt =====
-- internal/identity/identity.go: what writing the identity does to its file. The last Chmod may fail
-- behind the rename.
use homelab_inventory_agent.Prelude.{
  Text, ◌++◌, Result, ok, err, ◌≡◌, ◌≢◌, arith, some, ◌⊎◌, inl, inr, ◌∙◌,
}
use homelab_inventory_agent.Exec.{continue, ◌>>=◌, ◌>>◌}
use homelab_inventory_agent.Os.{Dir, OsError, file, find, plain}
use homelab_inventory_agent.Os.Frame.{Leaves-plain}
use homelab_inventory_agent.Os.Atomic.{atomic_write, Replaced, atomic_write-Replaced}
use homelab_inventory_agent.Identity.{identity_name, temp_prefix, replace_file}

abbrev pub Written : Text → Dir → Result OsError (Unit {0}) × Dir → Type 0
Written body d (ok u, d') = find identity_name d'.nodes ≡ some (file body)
Written body d (err e, d') =
    (find identity_name d'.nodes ≡ some (file body))
    ⊎ (find identity_name d'.nodes ≡ find identity_name d.nodes)

no_temp : (t : Text) → temp_prefix ++ t ≢ identity_name
no_temp t = λ e. ground (arith, e)

kept-Written :
    (body : Text) (d d1 : Dir) (x : Result OsError (Unit {0}) × Dir)
    → find identity_name x.1.nodes ≡ find identity_name d1.nodes
    → find identity_name d1.nodes ≡ some (file body)
    → Written body d x
kept-Written body d d1 (ok u, d') e h = e ∙ h
kept-Written body d d1 (err x, d') e h = inl (e ∙ h)

after_write :
    (body : Text) (d d0 : Dir) (x : Result OsError (Unit {0}) × Dir)
    → find identity_name d0.nodes ≡ find identity_name d.nodes
    → Replaced identity_name body d0 x
    → Written body d (continue x.0 (λ _. plain) x.1)
after_write body d d0 (ok u, d1) e h =
    kept-Written body d d1 (plain d1) ((Leaves-plain identity_name).at d1) h
after_write body d d0 (err x, d1) e h = inr (h ∙ e)

after_mkdir :
    (body : Text) (d : Dir) (x : Result OsError (Unit {0}) × Dir)
    → find identity_name x.1.nodes ≡ find identity_name d.nodes
    → Written body d (continue x.0 (λ _. do atomic_write temp_prefix identity_name body; plain) x.1)
unfolding ◌>>=◌
after_mkdir body d (ok u, d0) e =
    after_write body d d0 _ e (atomic_write-Replaced temp_prefix identity_name body d0 no_temp)
after_mkdir body d (err x, d0) e = inr e

pub replace_file-Written : (body : Text) (d : Dir) → Written body d (replace_file body d)
unfolding replace_file ◌>>=◌
replace_file-Written body d = after_mkdir body d (plain d) ((Leaves-plain identity_name).at d)
