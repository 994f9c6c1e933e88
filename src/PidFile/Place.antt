-- ===== src/PidFile/Place.antt =====
-- Where the file of the process's number lies.
use Prim.Native.String.{◌++◌}
use Prim.Native.String.append
use Prim.Native.Char.{code, Char}
use service_framework.Prelude.{
  String, refl, sym, ap, subst, inl, inr, false, arith, Bool-cases, ◌≡◌, ◌∙◌, ◌||◌, ◌==◌, string_eq,
  if◌then◌else◌, nat_eq, string_eq,
}
use service_framework.PidFile.{has_slash, pid_directory, pid_file_name}

-- The part of a file's name behind its last "/".
abbrev pub base_name : String → String
base_name String.[] = ""
base_name (String.◌∷◌ c s) =
    if has_slash s then base_name s else if code c == b'/' then s else String.◌∷◌ c s

nil-append : (t : String) → String.[] ++ t ≡ t
nil-append t = λ i. append.nil t i

cons-append : (c : Char) (s t : String) → String.◌∷◌ c s ++ t ≡ String.◌∷◌ c (s ++ t)
cons-append c s t = λ i. append.cons c s t i

has_slash-append : (s t : String) → has_slash (s ++ t) ≡ (has_slash s || has_slash t)
unfolding has_slash
has_slash-append String.[] t = rw nil-append refl
has_slash-append (String.◌∷◌ c s) t = rw (cons-append c s t) (ground (arith, has_slash-append s t))

base_name-no_slash : (s : String) → has_slash s ≡ false → base_name s ≡ s
unfolding has_slash
base_name-no_slash String.[] h = refl
base_name-no_slash (String.◌∷◌ c s) h = ground (arith, h)

base_name-append : (s t : String) → has_slash t ≡ false → base_name (s ++ t) ≡ base_name s ++ t
base_name-append String.[] t h = rw nil-append (base_name-no_slash t h)
base_name-append (String.◌∷◌ c s) t h =
    rw (cons-append c s t)
      (ground (arith, h, has_slash-append s t, base_name-append s t h, cons-append c s t))

base_name_of_directory : (s : String) → base_name (s ++ "/") ≡ ""
unfolding has_slash
base_name_of_directory String.[] = refl
base_name_of_directory (String.◌∷◌ c s) =
    rw (cons-append c s "/") (ground (arith, has_slash-append s "/", base_name_of_directory s))

base_name-pid_directory :
    (path : String)
    → base_name (pid_directory path) ≡ (if has_slash path then base_name path else "")
unfolding pid_directory
base_name-pid_directory path = elim (Bool-cases (string_eq.beq path "")) [
  | inl empty ↦ rw empty (
      subst (λ p. base_name p ≡ (if has_slash p then base_name p else ""))
        (sym ((string_eq.beq_iff path "").0 empty)) (unfold has_slash in refl))
  | inr some_path ↦ ground (arith, some_path, base_name_of_directory path)
]

-- The part of a file's name up to its last "/", with it: the directory.
abbrev pub dir_name : String → String
dir_name String.[] = ""
dir_name (String.◌∷◌ c s) =
    if has_slash s
    then String.◌∷◌ c (dir_name s)
    else if code c == b'/'
    then String.◌∷◌ c ""
    else ""

-- The two parts make up the name.
dir_name-base_name : (s : String) → dir_name s ++ base_name s ≡ s
unfolding has_slash
dir_name-base_name String.[] = nil-append ""
dir_name-base_name (String.◌∷◌ c s) = elim (Bool-cases (has_slash s)) [
  | inl inside ↦
      rw inside
        (cons-append c (dir_name s) (base_name s) ∙ ap (String.◌∷◌ c) (dir_name-base_name s))
  | inr behind ↦ elim (Bool-cases (code c == b'/')) [
    | inl slash ↦ rw (behind, slash) (cons-append c "" s ∙ ap (String.◌∷◌ c) (nil-append s))
    | inr other ↦ rw (behind, other) (nil-append (String.◌∷◌ c s))
  ]
]

dir_name-no_slash : (s : String) → has_slash s ≡ false → dir_name s ≡ ""
unfolding has_slash
dir_name-no_slash String.[] h = refl
dir_name-no_slash (String.◌∷◌ c s) h = ground (arith, h)

dir_name-append : (s t : String) → has_slash t ≡ false → dir_name (s ++ t) ≡ dir_name s
unfolding has_slash
dir_name-append String.[] t h = rw nil-append (dir_name-no_slash t h)
dir_name-append (String.◌∷◌ c s) t h =
    rw (cons-append c s t) (ground (arith, h, has_slash-append s t, dir_name-append s t h))

dir_name_of_directory : (s : String) → dir_name (s ++ "/") ≡ s ++ "/"
unfolding has_slash
dir_name_of_directory String.[] = refl
dir_name_of_directory (String.◌∷◌ c s) =
    rw (cons-append c s "/") (ground (arith, has_slash-append s "/", dir_name_of_directory s))

dir_name-pid_directory :
    (path : String)
    → dir_name (pid_directory path) ≡ (
        if has_slash path then dir_name path else if string_eq.beq path "" then "" else path ++ "/")
unfolding pid_directory
dir_name-pid_directory path = elim (Bool-cases (string_eq.beq path "")) [
  | inl empty ↦ rw empty (
      subst (λ p. dir_name p ≡ (if has_slash p then dir_name p else ""))
        (sym ((string_eq.beq_iff path "").0 empty)) (unfold has_slash in refl))
  | inr some_path ↦ ground (arith, some_path, dir_name_of_directory path)
]

-- For the name of a server without "/": the file's own name is the server's with ".pid" when the path
-- has no "/" or ends in one, and for every other path what stands behind the path's last "/" is glued
-- in front of it. The file lies in the directory that the path names when it is empty, has no "/" or
-- ends in one, and else in the directory of the path's last part.
pub base_name-pid_file_name :
    (path server_name : String)
    → has_slash server_name ≡ false
    → (dir_name (pid_file_name path server_name) ≡ (
        if has_slash path
        then dir_name path
        else if string_eq.beq path ""
        then ""
        else path ++ "/"))
      × (base_name (pid_file_name path server_name)
          ≡ (if has_slash path then base_name path else "") ++ server_name ++ ".pid")
unfolding pid_file_name
base_name-pid_file_name path server_name h =
    let plain : has_slash (server_name ++ ".pid") ≡ false =
      has_slash-append server_name ".pid" ∙ rw h (unfold has_slash in refl) in
    (
      dir_name-append (pid_directory path) (server_name ++ ".pid") plain
          ∙ dir_name-pid_directory path,
      base_name-append (pid_directory path) (server_name ++ ".pid") plain
          ∙ ap (λ s. s ++ server_name ++ ".pid") (base_name-pid_directory path),
    )
