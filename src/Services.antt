-- ===== src/Services.antt =====
-- internal/collectors/services: the service collectors. A command's answer is the next of a list that
-- the environment chose; filepath.Clean, filepath.Base and strings.ToLower are parameters.
pub mod Names
pub mod Valid
pub mod Rcd
pub mod Systemd
pub mod Openrc
use homelab_inventory_agent.Prelude.{
  ℕ, ◌==◌, ◌&&◌, ◌||◌, leb, List, [], ◌∷◌, ◌++◌, Text, codes, text_eq, is_empty, length, all,
  strip_prefix, Bool, true, false, Option, none, some, ok, if◌then◌else◌,
}
use homelab_inventory_agent.Exec.{Exec}
use homelab_inventory_agent.Update.Version.{split}

-- What runner.Run returns: an error, the output, and whether the time of the collection is over.
pub record Reply : Type 0 where
  pub failed : Bool
  pub expired : Bool
  pub output : Text

-- `ran` holds the commands, the newest first. Past the end of the replies every command fails.
pub record Commands : Type 0 where
  pub replies : List Reply
  pub ran : List (List Text)

pub data ServiceError : Type 0 where
  command_failed too_many_services unsafe_path unsafe_name unreadable : ServiceError

abbrev pub Collecting : Type 0 → Type 0
Collecting = Exec Commands ServiceError

pub record TextLibrary : Type 0 where
  pub clean : Text → Text
  pub base : Text → Text
  pub to_lower : Text → Text

abbrev next_reply : List Reply → Reply × List Reply
next_reply [] = (record { failed = true; expired = false; output = [] }, [])
next_reply (r ∷ rs) = (r, rs)

unfoldable pub run_command : List Text → Collecting Reply
run_command argv c =
    let (reply, rest) = next_reply c.replies in
    (ok reply, record { replies = rest; ran = argv ∷ c.ran })

abbrev starts_with_newline : Text → Bool
starts_with_newline [] = false
starts_with_newline (c ∷ s) = c == b'\n'

-- strings.ReplaceAll(s, "\r\n", "\n")
unfoldable pub replace_crlf : Text → Text
replace_crlf [] = []
replace_crlf (c ∷ s) =
    let rest = replace_crlf s in if c == b'\r' && starts_with_newline s then rest else c ∷ rest

unfoldable pub unix_lines : Text → List Text
unix_lines body = split b'\n' (replace_crlf body)

abbrev is_some : Option Text → Bool
is_some none = false
is_some (some t) = true

-- strings.HasPrefix(s, p)
unfoldable pub has_prefix : Text → Text → Bool
has_prefix p s = is_some (strip_prefix p s)

-- strings.Contains(s, needle)
unfoldable pub contains : Text → Text → Bool
contains needle [] = is_empty needle
contains needle (c ∷ s) = let rest = contains needle s in has_prefix needle (c ∷ s) || rest

-- The directory itself or something in it.
unfoldable pub is_under : Text → Text → Bool
is_under directory path = text_eq path directory || has_prefix (directory ++ codes "/") path

abbrev between : ℕ → ℕ → ℕ → Bool
between low high c = leb low c && leb c high

abbrev pub is_alphanumeric : ℕ → Bool
is_alphanumeric c = between b'A' b'Z' c || between b'a' b'z' c || between b'0' b'9' c

abbrev pub is_name_byte : ℕ → Bool
is_name_byte c = is_alphanumeric c || c == b'_' || c == b'.' || c == b'-'

-- ^[A-Za-z0-9][A-Za-z0-9_.-]{0,255}$
unfoldable pub is_service_name : Text → Bool
is_service_name [] = false
is_service_name (c ∷ s) = is_alphanumeric c && all is_name_byte s && leb (length s) 255
