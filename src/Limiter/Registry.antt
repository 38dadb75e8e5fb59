-- ===== src/Limiter/Registry.antt =====
-- limiter/limiter.go: the package's table of limiters, with AddLimiter, GetLimiter and
-- DeleteLimiter. The table holds pointers: a `Ref` says which limiter, and the heap what it holds,
-- so that a caller which keeps a pointer shares the limiter with the table.
use ccaa.Base.{ℕ, ◌+◌, ℤ, String, List, [], Option, Assoc, load, store, delete, string_eq, nat_eq}
use ccaa.Panel.User.{UserInfo}
use ccaa.Limiter.{Limiter}
use ccaa.Limiter.Users.{new_limiter}

abbrev pub Ref : Type 0
Ref = ℕ

-- `next` is the first reference that is not in use.
pub record Registry (R B : Type 0) : Type 0 where
  pub limiter : Assoc String Ref
  pub heap : Assoc ℕ (Limiter R B)
  pub next : Ref

unfoldable pub init : {R B : Type 0} → Registry R B → Registry R B
init g = record g { limiter = [] }

unfoldable pub add_limiter :
    {R B : Type 0} → String → ℤ → List UserInfo → Assoc ℤ ℤ → Registry R B → Ref × Registry R B
add_limiter tag speed users alive g = (
  g.next,
  record g {
    limiter = store tag g.next g.limiter;
    heap = store g.next (new_limiter tag speed users alive) g.heap;
    next = g.next + 1;
  },
)

-- `none` is the error "not found".
unfoldable pub get_limiter : {R B : Type 0} → String → Registry R B → Option Ref
get_limiter tag g = load tag g.limiter

unfoldable pub delete_limiter : {R B : Type 0} → String → Registry R B → Registry R B
delete_limiter tag g = record g { limiter = delete tag g.limiter }
