-- ===== src/Sanitize/Writes.antt =====
-- auditutil/sanitize.go: what is recorded of a tool's input, by the name of the tool and the file that
-- the input names.
use casdoor_aiguard.Common.Text.{
  Str, ◌==◌, codes, eq_iff, has_infix, has_prefix, has_suffix, lower_text,
}
use casdoor_aiguard.Common.{
  Bool, ℕ, true, false, not, ◌&&◌, ◌||◌, Option, none, some, [], ◌∷◌, ◌≡◌, refl, ◌↔◌, eqb, keep_if,
  if◌then◌else◌, Bool-cases, inl, inr, ◌⊎◌,
}
use casdoor_aiguard.Json.{
  Json, Fields, null, boolean, number, string, array, object, end, field, get_field,
}
use casdoor_aiguard.Sanitize.{sanitize_fields, sanitize_inner, sanitize_value, sensitive_key}
use casdoor_aiguard.Sanitize.Files.{
  base_of, has_sensitive_path, hidden_content, hide_content, hide_in, is_content_key,
  is_sensitive_file, is_sensitive_path, is_sensitive_write, sanitize_tool_input, string_value,
  with_slashes,
}

-- A Boolean test and what it stands for, piece by piece.
abbrev Tests : Bool → Type 0 → Type 0
Tests b P = (b ≡ true) ↔ P

or-Tests : {a b : Bool} {P Q : Type 0} → Tests a P → Tests b Q → Tests (a || b) (P ⊎ Q)
or-Tests {a = true} p q = (λ h. inl (p.0 refl), λ h. refl)
or-Tests {a = false} p q = (λ h. inr (q.0 h), λ h. elim h [ inl x ↦ cc (p.1 x) | inr y ↦ q.1 y ])

and-Tests : {a b : Bool} {P Q : Type 0} → Tests a P → Tests b Q → Tests (a && b) (P × Q)
and-Tests {a = true} p q = (λ h. (p.0 refl, q.0 h), λ h. q.1 h.1)
and-Tests {a = false} p q = (λ h. cc h, λ h. p.1 h.0)

not-Tests : {a : Bool} {P : Type 0} → Tests a P → Tests (not a) (¬ P)
not-Tests {a = true} p = (λ h. cc h, λ h. absurd (h (p.0 refl)))
not-Tests {a = false} p = (λ h x. cc (p.1 x), λ h. refl)

has-Tests : (b : Bool) → Tests b (b ≡ true)
has-Tests b = (λ h. h, λ h. h)

-- A field that holds content, by its name in lower case without underscores and dashes.
abbrev pub HoldsContent : Str → Type 0
HoldsContent name =
    (name ≡ codes "content") ⊎ ((name ≡ codes "oldstring") ⊎ (name ≡ codes "newstring"))

abbrev pub plain_name : Str → Str
plain_name key = lower_text (keep_if (λ c. not (eqb c b'_' || eqb c b'-')) key)

is_content_key-Tests : (key : Str) → Tests (is_content_key key) (HoldsContent (plain_name key))
unfolding is_content_key
is_content_key-Tests key =
    or-Tests (eq_iff _ (codes "content"))
      (or-Tests (eq_iff _ (codes "oldstring")) (eq_iff _ (codes "newstring")))

-- A tool that writes, by its name in lower case: an agent's own, or one of an MCP server.
abbrev pub Writes : Str → Type 0
Writes name =
    ((name ≡ codes "write")
      ⊎ ((name ≡ codes "edit") ⊎ ((name ≡ codes "write_file") ⊎ (name ≡ codes "edit_file"))))
    ⊎ ((has_suffix (codes "__write_file") name ≡ true)
        ⊎ (has_suffix (codes "__edit_file") name ≡ true))

is_sensitive_write-Tests : (tool : Str) → Tests (is_sensitive_write tool) (Writes (lower_text tool))
unfolding is_sensitive_write
is_sensitive_write-Tests tool =
    or-Tests
      (or-Tests (eq_iff _ (codes "write")) (
        or-Tests (eq_iff _ (codes "edit"))
          (or-Tests (eq_iff _ (codes "write_file")) (eq_iff _ (codes "edit_file")))))
      (or-Tests (has-Tests _) (has-Tests _))

-- A file that holds secrets, by its path with slashes and its base, both in lower case: an
-- environment file that is no example, SSH and AWS credentials, a package index's, a key.
abbrev pub SensitiveFile : Str → Str → Type 0
SensitiveFile normalized base =
    ((((has_prefix (codes ".env") base ≡ true)
          × ((¬ (base ≡ codes ".env.example"))
              × ((¬ (base ≡ codes ".env.sample")) × (¬ (base ≡ codes ".env.template")))))
        ⊎ ((has_prefix (codes ".ssh/") normalized ≡ true)
            ⊎ ((has_infix (codes "/.ssh/") normalized ≡ true)
                ⊎ ((normalized ≡ codes ".aws/credentials")
                    ⊎ (has_suffix (codes "/.aws/credentials") normalized ≡ true)))))
      ⊎ ((base ≡ codes ".npmrc")
          ⊎ ((base ≡ codes ".pypirc")
              ⊎ ((base ≡ codes "credentials")
                  ⊎ ((base ≡ codes "id_rsa") ⊎ (base ≡ codes "id_ed25519"))))))
    ⊎ ((has_suffix (codes ".pem") base ≡ true) ⊎ (has_suffix (codes ".key") base ≡ true))

is_sensitive_file-Tests :
    (normalized base : Str)
    → Tests (is_sensitive_file normalized base) (SensitiveFile normalized base)
unfolding is_sensitive_file
is_sensitive_file-Tests normalized base =
    or-Tests
      (or-Tests
        (or-Tests
          (and-Tests (has-Tests _) (
            and-Tests (not-Tests (eq_iff _ (codes ".env.example"))) (
              and-Tests (not-Tests (eq_iff _ (codes ".env.sample")))
                (not-Tests (eq_iff _ (codes ".env.template"))))))
          (or-Tests (has-Tests _) (
            or-Tests (has-Tests _) (or-Tests (eq_iff _ (codes ".aws/credentials")) (has-Tests _)))))
        (or-Tests (eq_iff _ (codes ".npmrc")) (
          or-Tests (eq_iff _ (codes ".pypirc")) (
            or-Tests (eq_iff _ (codes "credentials"))
              (or-Tests (eq_iff _ (codes "id_rsa")) (eq_iff _ (codes "id_ed25519")))))))
      (or-Tests (has-Tests _) (has-Tests _))

-- A path that is not empty, of such a file.
abbrev pub SensitivePath : Str → Type 0
SensitivePath path =
    (¬ (path ≡ []))
    × SensitiveFile (lower_text (with_slashes path)) (base_of (lower_text (with_slashes path)))

is_sensitive_path-Tests : (path : Str) → Tests (is_sensitive_path path) (SensitivePath path)
unfolding is_sensitive_path ◌==◌
is_sensitive_path-Tests [] = (λ h. cc h, λ h. absurd (h.0 refl))
is_sensitive_path-Tests (c ∷ s) =
    (λ h. (λ e. cc e, (is_sensitive_file-Tests _ _).0 h), λ h. (is_sensitive_file-Tests _ _).1 h.1)

-- A field that holds a text which is not empty, and any other.
abbrev HoldsNone : Option Json → Type 0
HoldsNone o = (c : ℕ) (s : Str) → ¬ (o ≡ some (string (c ∷ s)))

data Texts (o : Option Json) : Type 0 where
  holds : (c : ℕ) (s : Str) → o ≡ some (string (c ∷ s)) → Texts o
  holds_none : HoldsNone o → string_value o ≡ [] → Texts o

texts : (o : Option Json) → Texts o
unfolding string_value
texts none = holds_none (λ c s e. cc e) refl
texts (some null) = holds_none (λ c s e. cc e) refl
texts (some (boolean b)) = holds_none (λ c s e. cc e) refl
texts (some (number n)) = holds_none (λ c s e. cc e) refl
texts (some (string [])) = holds_none (λ c s e. cc e) refl
texts (some (string (c ∷ s))) = holds c s refl
texts (some (array xs)) = holds_none (λ c s e. cc e) refl
texts (some (object fs)) = holds_none (λ c s e. cc e) refl

-- A sensitive file is named by a field `file_path` or, where that holds no text, by a field `path`.
pub data NamesFile (file_path path : Option Json) : Type 0 where
  by_file_path :
      (c : ℕ) (s : Str)
      → file_path ≡ some (string (c ∷ s))
      → SensitivePath (c ∷ s)
      → NamesFile file_path path
  by_path :
      (s : Str)
      → HoldsNone file_path
      → path ≡ some (string s)
      → SensitivePath s
      → NamesFile file_path path

abbrev pub NamesSensitive : Json → Type 0
NamesSensitive null = ⊥
NamesSensitive (boolean b) = ⊥
NamesSensitive (number n) = ⊥
NamesSensitive (string s) = ⊥
NamesSensitive (array xs) = ⊥
NamesSensitive (object fs) =
    NamesFile (get_field (codes "file_path") fs) (get_field (codes "path") fs)

abbrev chosen : Option Json → Option Json → Str
chosen file_path path =
    if string_value file_path == [] then string_value path else string_value file_path

chosen-holds :
    (file_path path : Option Json) (c : ℕ) (s : Str)
    → file_path ≡ some (string (c ∷ s))
    → chosen file_path path ≡ c ∷ s
unfolding string_value ◌==◌
chosen-holds file_path path c s e = rw e refl

chosen-holds_none :
    (file_path path : Option Json)
    → string_value file_path ≡ []
    → chosen file_path path ≡ string_value path
unfolding ◌==◌
chosen-holds_none file_path path e = rw e refl

named_by_path :
    (file_path path : Option Json)
    → HoldsNone file_path
    → is_sensitive_path (string_value path) ≡ true
    → NamesFile file_path path
unfolding string_value is_sensitive_path ◌==◌
named_by_path file_path (some (string s)) lacks h =
    by_path s lacks refl ((is_sensitive_path-Tests s).0 h)
named_by_path file_path none lacks h = cc h
named_by_path file_path (some null) lacks h = cc h
named_by_path file_path (some (boolean b)) lacks h = cc h
named_by_path file_path (some (number n)) lacks h = cc h
named_by_path file_path (some (array xs)) lacks h = cc h
named_by_path file_path (some (object fs)) lacks h = cc h

also_sensitive : {p q : Str} → p ≡ q → is_sensitive_path p ≡ true → is_sensitive_path q ≡ true
also_sensitive e h = cc

chosen-NamesFile :
    (file_path path : Option Json)
    → is_sensitive_path (chosen file_path path) ≡ true
    → NamesFile file_path path
chosen-NamesFile file_path path h = elim (texts file_path) [
  | holds c s e ↦
      by_file_path c s e
        ((is_sensitive_path-Tests (c ∷ s)).0 (also_sensitive (chosen-holds file_path path c s e) h))
  | holds_none lacks e ↦
      named_by_path file_path path lacks (also_sensitive (chosen-holds_none file_path path e) h)
]

NamesFile-chosen :
    (file_path path : Option Json)
    → NamesFile file_path path
    → is_sensitive_path (chosen file_path path) ≡ true
unfolding string_value
NamesFile-chosen file_path path (by_file_path c s e p) =
    rw (chosen-holds file_path path c s e) ((is_sensitive_path-Tests (c ∷ s)).1 p)
NamesFile-chosen file_path path (by_path s lacks e p) = elim (texts file_path) [
  | holds c r f ↦ absurd (lacks c r f)
  | holds_none _ f ↦ rw (chosen-holds_none file_path path f, e) ((is_sensitive_path-Tests s).1 p)
]

has_sensitive_path-Tests : (input : Json) → Tests (has_sensitive_path input) (NamesSensitive input)
unfolding has_sensitive_path
has_sensitive_path-Tests null = (λ h. cc h, λ x. absurd x)
has_sensitive_path-Tests (boolean b) = (λ h. cc h, λ x. absurd x)
has_sensitive_path-Tests (number n) = (λ h. cc h, λ x. absurd x)
has_sensitive_path-Tests (string s) = (λ h. cc h, λ x. absurd x)
has_sensitive_path-Tests (array xs) = (λ h. cc h, λ x. absurd x)
has_sensitive_path-Tests (object fs) = (chosen-NamesFile _ _, NamesFile-chosen _ _)

-- Field by field: a content field holds the mark, any other what it held.
abbrev pub Hides : Fields → Fields → Type 0
Hides end end = Unit
Hides end (field k v fs) = ⊥
Hides (field j u gs) end = ⊥
Hides (field j u gs) (field k v fs) =
    (k ≡ j)
    × ((HoldsContent (plain_name j) × (v ≡ hidden_content))
        ⊎ ((¬ HoldsContent (plain_name j)) × (v ≡ u)))
    × Hides gs fs

no_object : false ≡ true → ⊥
no_object e = cc

refuted : {b : Bool} {P : Type 0} → Tests b P → b ≡ false → ¬ P
refuted t e p = no_object (cc (t.1 p, e))

hide_content-Hides : (fs : Fields) → Hides fs (hide_content fs)
unfolding hide_content
hide_content-Hides end = tt
hide_content-Hides (field k v fs) = elim (Bool-cases (is_content_key k)) [
  | inl e ↦ rw e (refl, inl ((is_content_key-Tests k).0 e, refl), hide_content-Hides fs)
  | inr e ↦ rw e (refl, inr (refuted (is_content_key-Tests k) e, refl), hide_content-Hides fs)
]

-- What is recorded of a tool's input.
pub data Shows (sanitize_string : Str → Str) (tool_name : Str) (input : Json) : Json → Type 0 where
  hidden :
      (fs gs : Fields)
      → Writes (lower_text tool_name)
      → NamesSensitive input
      → sanitize_value sanitize_string [] input ≡ object fs
      → Hides fs gs
      → Shows sanitize_string tool_name input (object gs)
  plain :
      (¬ Writes (lower_text tool_name)) ⊎ (¬ NamesSensitive input)
      → Shows sanitize_string tool_name input (sanitize_value sanitize_string [] input)

shown_hidden :
    (sanitize_string : Str → Str) (tool_name : Str) (input : Json)
    → Writes (lower_text tool_name)
    → NamesSensitive input
    → Shows sanitize_string tool_name input (hide_in (sanitize_value sanitize_string [] input))
unfolding hide_in sanitize_value sanitize_inner sensitive_key
shown_hidden sanitize_string tool_name (object fs) w p =
    hidden (sanitize_fields sanitize_string fs) (hide_content (sanitize_fields sanitize_string fs))
      w p refl (hide_content-Hides (sanitize_fields sanitize_string fs))
shown_hidden sanitize_string tool_name null w p = absurd p
shown_hidden sanitize_string tool_name (boolean b) w p = absurd p
shown_hidden sanitize_string tool_name (number n) w p = absurd p
shown_hidden sanitize_string tool_name (string s) w p = absurd p
shown_hidden sanitize_string tool_name (array xs) w p = absurd p

-- Of a tool by whose name a file is written or edited and whose input names a file that holds
-- secrets (environment files but examples, SSH and AWS credentials, those of package indexes,
-- keys), the input is recorded as sanitized, but with the mark in every field of the top level
-- named content, old_string or new_string, whatever its case, underscores and dashes; any other
-- input is recorded as sanitized.
pub sanitize_tool_input-Shows :
    (sanitize_string : Str → Str) (tool_name : Str) (input : Json)
    → Shows sanitize_string tool_name input (sanitize_tool_input sanitize_string tool_name input)
unfolding sanitize_tool_input
sanitize_tool_input-Shows sanitize_string tool_name input =
    elim (Bool-cases (is_sensitive_write tool_name)) [
      | inr e ↦ rw e (plain (inl (refuted (is_sensitive_write-Tests tool_name) e)))
      | inl e ↦ elim (Bool-cases (has_sensitive_path input)) [
        | inr f ↦ rw (e, f) (plain (inr (refuted (has_sensitive_path-Tests input) f)))
        | inl f ↦
            rw (e, f)
              (shown_hidden sanitize_string tool_name input
                ((is_sensitive_write-Tests tool_name).0 e) ((has_sensitive_path-Tests input).0 f))
      ]
    ]
