-- ===== src/MockFtp/Commands.antt =====
-- mockftp/server.go: the commands of handle, and splitCmd.
use utilities.Base.{String, ◌||◌, Option, none, some, if◌then◌else◌, string_keyed, ◌==◌, eqb}
use Prim.Native.String.{[] as empty_text, ◌∷◌ as ◌then◌}
use Prim.Native.Char.{code as char_code}
use utilities.MockFtp.Files.{Texts}

-- The names that the `switch` knows.
pub data Command : Type 0 where
  user : Command
  pass : Command
  auth : Command
  pbsz : Command
  prot : Command
  feat : Command
  opts : Command
  syst : Command
  type : Command
  pwd : Command
  cwd : Command
  noop : Command
  quit : Command
  pasv : Command
  epsv : Command
  stor : Command
  retr : Command
  list : Command
  dele : Command
  rnfr : Command
  rnto : Command
  size : Command
  unknown : Command

unfoldable pub command_of : String → Command
command_of cmd =
    if cmd == "USER"
    then user
    else if cmd == "PASS"
    then pass
    else if cmd == "AUTH"
    then auth
    else if cmd == "PBSZ"
    then pbsz
    else if cmd == "PROT"
    then prot
    else if cmd == "FEAT"
    then feat
    else if cmd == "OPTS"
    then opts
    else if cmd == "SYST"
    then syst
    else if cmd == "TYPE"
    then type
    else if cmd == "PWD"
    then pwd
    else if cmd == "CWD"
    then cwd
    else if cmd == "NOOP"
    then noop
    else if cmd == "QUIT"
    then quit
    else if cmd == "PASV"
    then pasv
    else if cmd == "EPSV"
    then epsv
    else if cmd == "STOR"
    then stor
    else if cmd == "RETR"
    then retr
    else if cmd == "LIST" || cmd == "NLST"
    then list
    else if cmd == "DELE"
    then dele
    else if cmd == "RNFR"
    then rnfr
    else if cmd == "RNTO"
    then rnto
    else if cmd == "SIZE"
    then size
    else unknown

-- The text before the first space and the one after it.
unfoldable pub cut_space : String → Option (String × String)
cut_space empty_text = none
cut_space (c then s) =
    let rest = cut_space s in
    if eqb (char_code c) 32
    then some ("", s)
    else elim rest [ none ↦ none | some (before, after) ↦ some (c then before, after) ]

unfoldable pub split_cmd : Texts → String → String × String
unfolding cut_space
split_cmd t line = elim (cut_space line) [
  | none ↦ (t.to_upper (t.trim_space line), "")
  | some (cmd, arg) ↦ (t.to_upper (t.trim_space cmd), t.trim_space arg)
]
