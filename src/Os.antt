-- ===== src/Os.antt =====
-- The calls of package os on one directory, for every schedule of failures. A directory is a list of
-- named nodes; each call takes one outcome from a list that the environment chose: whether the call
-- fails, and a text, which is the random part of a temporary name or what a failed write left behind.
-- Past the end of the list every call works.
pub mod Frame
pub mod Atomic
use homelab_inventory_agent.Prelude.{
  List, [], ◌∷◌, ◌++◌, Text, text_eq, text_eq_iff, Bool, true, false, Option, none, some,
  if◌then◌else◌, Result, ok, err, ◌≡◌, refl, arith,
}
use homelab_inventory_agent.Exec.{Exec, pure, raise, ◌>>=◌, ◌>>◌}

pub data Node : Type 0 where
  file : Text → Node
  directory : Node

pub record Outcome : Type 0 where
  pub failed : Bool
  pub text : Text

pub record Dir : Type 0 where
  pub nodes : List (Text × Node)
  pub outcomes : List Outcome

pub data OsError : Type 0 where
  not_exist op_failed : OsError

abbrev pub Io : Type 0 → Type 0
Io = Exec Dir OsError

unfoldable pub find : Text → List (Text × Node) → Option Node
find k [] = none
find k ((j, v) ∷ l) = let rest = find k l in if text_eq j k then some v else rest

unfoldable pub without : Text → List (Text × Node) → List (Text × Node)
without k [] = []
without k ((j, v) ∷ l) = let rest = without k l in if text_eq j k then rest else (j, v) ∷ rest

pub find-without :
    (k j : Text) (l : List (Text × Node))
    → find j (without k l) ≡ (if text_eq k j then none else find j l)
unfolding find without
find-without k j [] = ground arith
find-without k j ((i, v) ∷ l) =
    ground (arith, find-without k j l, text_eq_iff i k, text_eq_iff i j, text_eq_iff k j)

-- A node in its place, whatever stood there.
unfoldable pub store : Text → Node → List (Text × Node) → List (Text × Node)
unfolding without
store k v l = (k, v) ∷ without k l

pub find-store :
    (k j : Text) (v : Node) (l : List (Text × Node))
    → find j (store k v l) ≡ (if text_eq k j then some v else find j l)
unfolding find store
find-store k j v l = ground (arith, find-without k j l)

-- A call: `act` is what it does if it does not fail, `fail` what a failure leaves.
module _ {A : Type 0} (act : Text → Dir → Result OsError A × Dir) (fail : Text → Dir → Dir) where
  abbrev pub call_with : List Outcome → Dir → Result OsError A × Dir
  call_with [] d = act [] d
  call_with (o ∷ rest) d =
      let d' = record d { outcomes = rest } in
      if o.failed then (err op_failed, fail o.text d') else act o.text d'

  unfoldable pub call : Io A
  call d = call_with d.outcomes d

abbrev pub same : Text → Dir → Dir
same t d = d

abbrev pub file_body : Option Node → Result OsError Text
file_body none = err not_exist
file_body (some (file b)) = ok b
file_body (some directory) = err op_failed

unfoldable pub read_file : Text → Io Text
read_file name = call (λ t d. (file_body (find name d.nodes), d)) same

abbrev pub found : Option Node → Result OsError Node
found none = err not_exist
found (some n) = ok n

unfoldable pub stat : Text → Io Node
stat name = call (λ t d. (found (find name d.nodes), d)) same

unfoldable pub read_dir : Io (List (Text × Node))
read_dir = call (λ t d. (ok d.nodes, d)) same

abbrev pub remove_node : Option Node → Text → Dir → Result OsError (Unit {0}) × Dir
remove_node none name d = (err not_exist, d)
remove_node (some directory) name d = (err op_failed, d)
remove_node (some (file b)) name d = (ok tt, record d { nodes = without name d.nodes })

-- A directory is not empty, and is not removed.
unfoldable pub remove : Text → Io (Unit {0})
remove name = call (λ t d. remove_node (find name d.nodes) name d) same

abbrev pub create_node : Option Node → Text → Dir → Result OsError Text × Dir
create_node none name d = (ok name, record d { nodes = store name (file []) d.nodes })
create_node (some n) name d = (err op_failed, d)

-- os.CreateTemp: a new name behind the prefix.
unfoldable pub create_temp : Text → Io Text
create_temp prefix = call (λ t d. create_node (find (prefix ++ t) d.nodes) (prefix ++ t) d) same

-- A failed write leaves some text in the file.
unfoldable pub write : Text → Text → Io (Unit {0})
write name body =
    call (λ t d. (ok tt, record d { nodes = store name (file body) d.nodes }))
      (λ t d. record d { nodes = store name (file t) d.nodes })

-- Chmod, Sync, Close, MkdirAll: no effect on the contents.
unfoldable pub plain : Io (Unit {0})
plain = call (λ t d. (ok tt, d)) same

abbrev pub rename_node : Option Node → Text → Text → Dir → Result OsError (Unit {0}) × Dir
rename_node none from to d = (err not_exist, d)
rename_node (some n) from to d = (ok tt, record d { nodes = store to n (without from d.nodes) })

unfoldable pub rename : Text → Text → Io (Unit {0})
rename from to = call (λ t d. rename_node (find from d.nodes) from to d) same
