-- ===== src/Fs/Path/Walk.antt =====
-- How `get_parent_dir_entry` and `namei` of fs/file_op.c walk a path, name by name.
use jnix.Prelude.{
  ℕ, ◌≡◌, refl, sym, ap, ◌∙◌, ◌↔◌, Bool, true, false, not, ◌&&◌, Option, none, some, List, [], ◌∷◌,
  ◌++◌, arith, ◌==◌, if◌then◌else◌, get_elem?, Run, ok, ◌>>=◌, deref,
}
use jnix.Clib.Strings.Compare.{is_text, strcmp_lem}
use jnix.Fs.State.{DirEntry, Vfs}
use jnix.Fs.Path.{
  same_name, find_child, Looked, assigned, untouched, lookup, mid_after, walk, get_parent_dir_entry,
  namei,
}

-- A name of a path: no byte of it is a slash.
abbrev pub is_name : List ℕ → Bool
is_name [] = true
is_name (c ∷ s) = not (c == b'/') && is_name s

pub append_nil {ℓ} : {A : Type ℓ} → (xs : List A) → xs ++ [] ≡ xs
append_nil [] = refl
append_nil (x ∷ xs) = ap (λ l. x ∷ l) (append_nil xs)

append_cons {ℓ} :
    {A : Type ℓ} → (xs : List A) (y : A) (ys : List A) → (xs ++ (y ∷ [])) ++ ys ≡ xs ++ (y ∷ ys)
append_cons [] y ys = refl
append_cons (x ∷ xs) y ys = ap (λ l. x ∷ l) (append_cons xs y ys)

walk-other :
    (v : Vfs) (dir mid : Option ℕ) (this : List ℕ) (c : ℕ) (rest : List ℕ)
    → (c == b'/') ≡ false
    → walk v dir mid this (c ∷ rest) ≡ walk v dir mid (this ++ (c ∷ [])) rest
unfolding walk
walk-other v dir mid this c rest h = rw (h, walk) refl

-- The bytes of a name are collected.
pub walk-name :
    (v : Vfs) (dir mid : Option ℕ) (this name rest : List ℕ)
    → is_name name ≡ true
    → walk v dir mid this (name ++ rest) ≡ walk v dir mid (this ++ name) rest
walk-name v dir mid this [] rest h = rw (append_nil this) refl
walk-name v dir mid this (c ∷ name) rest h =
    walk-other v dir mid this c (name ++ rest) (ground arith)
    ∙ walk-name v dir mid (this ++ (c ∷ [])) name rest (ground arith)
    ∙ ap (λ l. walk v dir mid l rest) (append_cons this c name)

-- A slash looks the name before it up.
pub walk-slash :
    (v : Vfs) (d : ℕ) (mid : Option ℕ) (this rest : List ℕ) (r : Looked)
    → lookup v d this ≡ ok r
    → walk v (some d) mid this (b'/' ∷ rest) ≡ walk v (mid_after r mid) (mid_after r mid) [] rest
unfolding walk
walk-slash v d mid this rest r h = rw (h, walk) refl

pub walk-component :
    (v : Vfs) (d : ℕ) (mid : Option ℕ) (name rest : List ℕ) (r : Looked)
    → is_name name ≡ true
    → lookup v d name ≡ ok r
    → walk v (some d) mid [] (name ++ (b'/' ∷ rest))
      ≡ walk v (mid_after r mid) (mid_after r mid) [] rest
walk-component v d mid name rest r h l =
    walk-name v (some d) mid [] name (b'/' ∷ rest) h ∙ walk-slash v d mid name rest r l

-- What `namei` does with the directory and the last name.
unfoldable pub last_step : Vfs → Option ℕ × List ℕ → Run (Option ℕ)
last_step v nd = do d ← deref nd.0; r ← lookup v d nd.1; ok (mid_after r none)

pub namei-absolute :
    (v : Vfs) (root : ℕ) (path : List ℕ)
    → v.current_thread.root ≡ some root
    → namei v (b'/' ∷ path) ≡ (walk v (some root) none [] path >>= last_step v)
unfolding namei get_parent_dir_entry last_step
namei-absolute v root path h = ap (λ x. walk v x none [] path >>= last_step v) h

-- A directory that is missing from the middle of a path is passed over: if the name `a` is found in
-- the root, as `d`, and `m` is not found in `d`, then /a/m/rest leads where /a/rest leads.
pub namei-missing :
    (v : Vfs) (root d : ℕ) (a m rest : List ℕ)
    → v.current_thread.root ≡ some root
    → is_name a ≡ true
    → is_name m ≡ true
    → lookup v root a ≡ ok (assigned (some d))
    → lookup v d m ≡ ok untouched
    → namei v (b'/' ∷ (a ++ (b'/' ∷ (m ++ (b'/' ∷ rest))))) ≡ namei v (b'/' ∷ (a ++ (b'/' ∷ rest)))
namei-missing v root d a m rest hr ha hm la lm =
    let long =
      walk-component v root none a (m ++ (b'/' ∷ rest)) (assigned (some d)) ha la
      ∙ walk-component v d (some d) m rest untouched hm lm in
    let short = walk-component v root none a rest (assigned (some d)) ha la in
    namei-absolute v root (a ++ (b'/' ∷ (m ++ (b'/' ∷ rest)))) hr
    ∙ ap (λ w. w >>= last_step v) (long ∙ sym short)
    ∙ sym (namei-absolute v root (a ++ (b'/' ∷ rest)) hr)

pub find_child-step :
    (dirs : List DirEntry) (name : List ℕ) (i : ℕ) (children : List ℕ) (tmp : DirEntry)
    (same : Bool)
    → get_elem? dirs i ≡ some tmp
    → same_name name tmp.name ≡ ok same
    → find_child dirs name (i ∷ children)
      ≡ (if same then ok (some i) else find_child dirs name children)
unfolding find_child
find_child-step dirs name i children tmp same h s = rw h (rw s refl)

pub same_name_lem :
    (s t : List ℕ)
    → is_text s ≡ true
    → is_text t ≡ true
    → (same : Bool) × (same_name s t ≡ ok same) × ((same ≡ true) ↔ (s ≡ t))
unfolding same_name
same_name_lem s t hs ht =
    let (n, run, (to, from)) = strcmp_lem s t [] [] hs ht in
    (n == 0, rw run refl, (λ e. to (ground arith), λ e. let z = from e in ground arith))
