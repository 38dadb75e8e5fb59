-- ===== src/Panel/Users/Read.antt =====
-- The JSON body from which the loop reads the users.
use ccaa.Base.{
  string_eq, Bool-cases, ◌≡◌, refl, ap, sym, ◌∙◌, ◌≢◌, ◌↔◌, inl, inr, List, [], ◌∷◌, ◌++◌, none,
  some, ◌==◌, arith, All,
}
use text.Mathlib.TextEquality.{eq_iff}
use ccaa.Panel.User.{UserInfo}
use ccaa.Panel.Users.{
  Token, string, begin_array, end_array, value, other, Users, and_user, read_users, read_array,
  find_users,
}

-- The users as values of an array, before what follows them.
abbrev pub print_users : List UserInfo → List Token → List Token
print_users [] rest = end_array ∷ rest
print_users (u ∷ us) rest = value (some u) ∷ print_users us rest

read_users-print_users :
    (us : List UserInfo) (rest : List Token) → read_users (print_users us rest) ≡ inr us
unfolding read_users
read_users-print_users [] rest = refl
read_users-print_users (u ∷ us) rest = ap (and_user u) (read_users-print_users us rest)

-- `us` is what an array lists that stands behind the first string "users".
abbrev pub Lists : List UserInfo → List Token → Type 0
Lists us ts =
    (front : List Token) × (rest : List Token) × All (λ t. t ≢ string "users") front
    × (ts ≡ front ++ (string "users" ∷ begin_array ∷ print_users us rest))

find_users-skips :
    (t : Token) (ts : List Token) → t ≢ string "users" → find_users (t ∷ ts) ≡ find_users ts
unfolding find_users
find_users-skips (string s) ts h = elim (Bool-cases (s == "users")) [
  | inl e ↦ absurd (h (ap string ((eq_iff s "users").0 e)))
  | inr e ↦ rw e refl
]
find_users-skips begin_array ts h = refl
find_users-skips end_array ts h = refl
find_users-skips (value v) ts h = refl
find_users-skips other ts h = refl

find_users-prints :
    (us : List UserInfo) (front rest : List Token)
    → All (λ t. t ≢ string "users") front
    → find_users (front ++ (string "users" ∷ begin_array ∷ print_users us rest)) ≡ inr us
unfolding find_users
find_users-prints us [] rest h = read_users-print_users us rest
find_users-prints us (t ∷ front) rest h =
    find_users-skips t (front ++ (string "users" ∷ begin_array ∷ print_users us rest)) h.0
    ∙ find_users-prints us front rest h.1

and_user-inr :
    (u : UserInfo) (r : Users) (us : List UserInfo)
    → and_user u r ≡ inr us
    → (ws : List UserInfo) × (r ≡ inr ws) × (us ≡ u ∷ ws)
and_user-inr u (inl e) us h = absurd (ground arith)
and_user-inr u (inr ws) us h = (ws, refl, ground arith)

read_users-printed :
    (us : List UserInfo) (ts : List Token)
    → read_users ts ≡ inr us
    → (rest : List Token) × (ts ≡ print_users us rest)
unfolding read_users
read_users-printed us [] h = absurd (ground arith)
read_users-printed [] (end_array ∷ ts) h = (ts, refl)
read_users-printed (u ∷ us) (end_array ∷ ts) h = absurd (ground arith)
read_users-printed us (value (some v) ∷ ts) h =
    let (ws, e, f) = and_user-inr v (read_users ts) us h in
    let (rest, g) = read_users-printed ws ts e in
    (rest, ap (λ xs. value (some v) ∷ xs) g ∙ ap (λ xs. print_users xs rest) (sym f))
read_users-printed us (value none ∷ ts) h = absurd (ground arith)
read_users-printed us (string s ∷ ts) h = absurd (ground arith)
read_users-printed us (begin_array ∷ ts) h = absurd (ground arith)
read_users-printed us (other ∷ ts) h = absurd (ground arith)

read_array-printed :
    (us : List UserInfo) (ts : List Token)
    → read_array ts ≡ inr us
    → (rest : List Token) × (ts ≡ begin_array ∷ print_users us rest)
read_array-printed us [] h = absurd (ground arith)
read_array-printed us (begin_array ∷ ts) h =
    let (rest, e) = read_users-printed us ts h in (rest, ap (λ xs. begin_array ∷ xs) e)
read_array-printed us (string s ∷ ts) h = absurd (ground arith)
read_array-printed us (end_array ∷ ts) h = absurd (ground arith)
read_array-printed us (value v ∷ ts) h = absurd (ground arith)
read_array-printed us (other ∷ ts) h = absurd (ground arith)

later :
    (us : List UserInfo) (t : Token) (ts : List Token)
    → t ≢ string "users"
    → Lists us ts
    → Lists us (t ∷ ts)
later us t ts h (front, rest, a, e) = (t ∷ front, rest, (h, a), ap (λ xs. t ∷ xs) e)

find_users-lists : (us : List UserInfo) (ts : List Token) → find_users ts ≡ inr us → Lists us ts
unfolding find_users
find_users-lists us [] h = absurd (ground arith)
find_users-lists us (string s ∷ ts) h = elim (Bool-cases (s == "users")) [
  | inl e ↦
      let (rest, f) = read_array-printed us ts (ground arith) in
      ([], rest, tt, ground (arith, (eq_iff s "users").0 e))
  | inr e ↦
      later us (string s) ts (λ f. ground (arith, eq_iff s "users"))
        (find_users-lists us ts (ground arith))
]
find_users-lists us (begin_array ∷ ts) h =
    later us begin_array ts (λ e. ground arith) (find_users-lists us ts h)
find_users-lists us (end_array ∷ ts) h =
    later us end_array ts (λ e. ground arith) (find_users-lists us ts h)
find_users-lists us (value v ∷ ts) h =
    later us (value v) ts (λ e. ground arith) (find_users-lists us ts h)
find_users-lists us (other ∷ ts) h =
    later us other ts (λ e. ground arith) (find_users-lists us ts h)

-- The users that the loop reads are the ones that an array lists, each as a value that is a user,
-- behind the first string "users" of the body, wherever that string stands and whatever follows the
-- array; in every other case the result is an error.
pub find_users_iff : (us : List UserInfo) (ts : List Token) → (find_users ts ≡ inr us) ↔ Lists us ts
find_users_iff us ts = (
  find_users-lists us ts,
  λ (front, rest, h, e). ap find_users e ∙ find_users-prints us front rest h,
)
