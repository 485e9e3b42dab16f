-- ===== src/MockFtp/Files.antt =====
-- mockftp/server.go: mockFS, the files of the mock server.
use utilities.Base.{
  ℕ, String, strip, Bool, true, false, ◌&&◌, ◌||◌, Option, none, some, List, [], ◌∷◌, Dict, lookup,
  insert, delete, has, length, replicate, eqb, if◌then◌else◌, str_append, string_keyed, ◌==◌,
}
use Prim.Native.String.{[] as empty_text, ◌∷◌ as ◌then◌}
use Prim.Native.Char.{code}

-- A file that an upload has begun has no `completed_at` yet, which is 0.
pub record FileState : Type 0 where
  pub size : ℕ
  pub completed_at : ℕ
  pub track_id : String
  pub content : Option (List ℕ)

pub record MockFs : Type 0 where
  pub files : Dict String FileState
  pub delay : ℕ
  pub routes : Dict String String
  pub fail_users : Dict String Bool
  pub persist : Bool
  pub evict_after_read : Bool

-- What the server takes from path, strings and crypto/rand.
pub record Texts : Type 0 where
  pub clean : String → String
  pub trim_space : String → String
  pub to_upper : String → String

-- The text before the first slash and the one after it.
unfoldable pub cut_slash : String → Option (String × String)
cut_slash empty_text = none
cut_slash (c then s) =
    let rest = cut_slash s in
    if eqb (code c) 47
    then some ("", s)
    else elim rest [ none ↦ none | some (before, after) ↦ some (c then before, after) ]

-- `strings.Contains(s, …)` of one character
unfoldable pub has_char : ℕ → String → Bool
has_char n empty_text = false
has_char n (c then s) = eqb (code c) n || has_char n s

-- `strings.TrimPrefix(s, "/")`
unfoldable pub trim_slash : String → String
trim_slash empty_text = ""
trim_slash (c then s) = if eqb (code c) 47 then s else c then s

unfoldable pub split_path : Texts → String → String × String
unfolding cut_slash trim_slash
split_path t p = elim (cut_slash (trim_slash (t.clean p))) [
  | none ↦ ("inbox", trim_slash (t.clean p))
  | some (folder, name) ↦ (folder, name)
]

-- `user + "/" + folder + "/" + name`
abbrev pub file_key : String → String → String → String
file_key user folder name =
    str_append user (str_append "/" (str_append folder (str_append "/" name)))

abbrev pub or_inbox : String → String
or_inbox folder = if folder == "" then "inbox" else folder

abbrev pub or_outbox : String → String
or_outbox folder = if folder == "" then "outbox" else folder

abbrev pub fresh_file : FileState
fresh_file = record { size = 0; completed_at = 0; track_id = ""; content = none }

-- `acceptStor` before and after the copy of the upload; the connection gives `bytes`. The
-- second half finds the file that has the key by then.
unfoldable pub store_begin : Texts → String → String → MockFs → MockFs
unfolding split_path insert
store_begin t user p fs =
    let (folder, name) = split_path t p in
    record fs { files = insert (file_key user (or_inbox folder) name) fresh_file fs.files }

unfoldable pub store_end : Texts → String → String → List ℕ → ℕ → MockFs → MockFs
unfolding split_path insert lookup
store_end t user p bytes now fs =
    let (folder, name) = split_path t p in
    let key = file_key user (or_inbox folder) name in
    elim (lookup key fs.files) [
      | none ↦ fs
      | some st ↦ record fs {
        files =
            insert key
              (record st {
                size = length bytes;
                completed_at = now;
                content = if fs.persist then some bytes else st.content;
              })
              fs.files;
      }
    ]

unfoldable pub store : Texts → String → String → List ℕ → ℕ → MockFs → MockFs
unfolding store_begin store_end
store t user p bytes now fs = store_end t user p bytes now (store_begin t user p fs)

-- The source's copies in inbox and sent, of every user whose uploads go to `user`.
unfoldable pub evict_sources :
    String → String → Dict String String → Dict String FileState → Dict String FileState
unfolding delete
evict_sources user name [] files = files
evict_sources user name ((src, dst) ∷ routes) files =
    let cleared = delete (file_key src "sent" name) (delete (file_key src "inbox" name) files) in
    evict_sources user name routes (if dst == user then cleared else files)

abbrev pub body_of : MockFs → FileState → List ℕ
body_of fs st =
    if fs.persist
    then elim st.content [ some bytes ↦ bytes | none ↦ replicate st.size 0 ]
    else replicate st.size 0

-- `read`
unfoldable pub read_file : Texts → String → String → MockFs → MockFs × Option (List ℕ)
unfolding split_path lookup evict_sources
read_file t user p fs =
    let (folder, name) = split_path t p in
    let key = file_key user (or_outbox folder) name in
    elim (lookup key fs.files) [
      | none ↦ (fs, none)
      | some st ↦ (
        if or_outbox folder == "outbox" && fs.evict_after_read
            then record fs { files = evict_sources user name fs.routes (delete key fs.files) }
            else fs,
        some (body_of fs st),
      )
    ]

unfoldable pub delete_file : Texts → String → String → MockFs → MockFs × Bool
unfolding split_path delete lookup
delete_file t user p fs =
    let (folder, name) = split_path t p in
    let key = file_key user folder name in
    if has key fs.files then (record fs { files = delete key fs.files }, true) else (fs, false)

unfoldable pub rename_file : Texts → String → String → String → MockFs → MockFs × Bool
unfolding split_path delete lookup insert
rename_file t user from to fs =
    let (from_folder, from_name) = split_path t from in
    let (to_folder, to_name) = split_path t to in
    let src = file_key user from_folder from_name in
    elim (lookup src fs.files) [
      | none ↦ (fs, false)
      | some st ↦ (
        record fs { files = insert (file_key user to_folder to_name) st (delete src fs.files) },
        true,
      )
    ]

unfoldable pub size_of : Texts → String → String → MockFs → Option ℕ
unfolding split_path lookup
size_of t user p fs =
    let (folder, name) = split_path t p in
    elim (lookup (file_key user folder name) fs.files) [ none ↦ none | some st ↦ some st.size ]

-- The folder that a listing asks for.
unfoldable pub list_folder : Texts → String → String
unfolding cut_slash trim_slash
list_folder t p =
    let given = trim_slash (t.trim_space p) in
    let folder : String = elim (cut_slash given) [ none ↦ given | some (before, _) ↦ before ] in
    if folder == "" || folder == "." then "inbox" else folder

-- The names under a prefix, with their sizes and times.
unfoldable pub names_under : String → Dict String FileState → List (String × ℕ × ℕ)
unfolding has_char strip
names_under prefix [] = []
names_under prefix ((key, st) ∷ files) =
    let rest = names_under prefix files in
    elim (strip prefix key) [
      | none ↦ rest
      | some name ↦ if has_char 47 name then rest else (name, st.size, st.completed_at) ∷ rest
    ]

-- `listForUser`
unfoldable pub list_for_user : Texts → String → String → MockFs → List (String × ℕ × ℕ)
unfolding list_folder names_under
list_for_user t user p fs = names_under (file_key user (list_folder t p) "") fs.files
