-- ===== src/Str/Chars.antt =====
-- The functions of lib/string.c on strings. A string is the list of its characters before the
-- terminating '\0', each the byte of the `char`; a pointer into it is the rest from there. A
-- difference of two characters is an `int`, kept as its 32-bit pattern.
pub mod Compare
pub mod Copy
use library_os_exokernel_imp.Base.{
  ℕ, zero, suc, ◌+◌, ◌-◌, ◌^◌, ◌%◌, Bool, true, false, ◌==◌, Option, none, some, List, [], ◌∷◌,
  ◌++◌, if◌then◌else◌,
}

unfoldable pub strlen : List ℕ → ℕ
strlen [] = 0
strlen (_ ∷ s) = strlen s + 1

unfoldable pub strnlen : List ℕ → ℕ → ℕ
strnlen s zero = 0
strnlen [] (suc size) = 0
strnlen (_ ∷ s) (suc size) = strnlen s size + 1

-- `*s`
abbrev pub deref : List ℕ → ℕ
deref [] = 0
deref (c ∷ _) = c

abbrev pub difference : ℕ → ℕ → ℕ
difference a b = (a + (2 ^ 32 - b)) % 2 ^ 32

unfoldable pub strcmp : List ℕ → List ℕ → ℕ
strcmp [] q = difference 0 (deref q)
strcmp (a ∷ p) [] = difference a 0
strcmp (a ∷ p) (b ∷ q) = if a == b then strcmp p q else difference a b

unfoldable pub strncmp : List ℕ → List ℕ → ℕ → ℕ
strncmp p q zero = 0
strncmp [] q (suc n) = difference 0 (deref q)
strncmp (a ∷ p) [] (suc n) = difference a 0
strncmp (a ∷ p) (b ∷ q) (suc n) = if a == b then strncmp p q n else difference a b

-- NULL is `none`.
unfoldable pub strchr : List ℕ → ℕ → Option (List ℕ)
strchr [] c = none
strchr (a ∷ s) c = if a == c then some (a ∷ s) else strchr s c

unfoldable pub strfind : List ℕ → ℕ → List ℕ
strfind [] c = []
strfind (a ∷ s) c = if a == c then a ∷ s else strfind s c

-- The bytes that strcpy writes at `dst`.
unfoldable pub strcpy : List ℕ → List ℕ
strcpy [] = 0 ∷ []
strcpy (c ∷ src) = c ∷ strcpy src

-- The bytes that strncpy writes at `dst`: `src` stays on the '\0' at its end.
unfoldable pub strncpy : List ℕ → ℕ → List ℕ
strncpy src zero = []
strncpy [] (suc size) = 0 ∷ strncpy [] size
strncpy (c ∷ src) (suc size) = c ∷ strncpy src size

-- The loop of strlcpy, `size` being one more than the rounds: the bytes written before the '\0'.
strlcpy_chars : List ℕ → ℕ → List ℕ
strlcpy_chars src zero = []
strlcpy_chars [] (suc size) = []
strlcpy_chars (c ∷ src) (suc size) = c ∷ strlcpy_chars src size

-- The bytes that strlcpy writes at `dst`, and `dst - dst_in`.
unfoldable pub strlcpy : List ℕ → ℕ → List ℕ × ℕ
unfolding strcpy strlcpy_chars strlen
strlcpy src zero = ([], 0)
strlcpy src (suc size) = (strcpy (strlcpy_chars src size), strlen (strlcpy_chars src size))

unfoldable pub memcmp : List ℕ → List ℕ → ℕ
memcmp (a ∷ v1) (b ∷ v2) = if a == b then memcmp v1 v2 else difference a b
memcmp _ _ = 0

-- The bytes that strcat leaves at `dst`.
unfoldable pub strcat : List ℕ → List ℕ → List ℕ
unfolding strcpy
strcat dst src = dst ++ strcpy src

-- The rest of the block from the first byte that is `c`, or its end.
unfoldable pub memfind : List ℕ → ℕ → List ℕ
memfind [] c = []
memfind (a ∷ s) c = if a == c % 256 then a ∷ s else memfind s c
