-- ===== src/Core/Dispatcher.antt =====
-- core/xray/app/dispatcher: the dispatcher of xray, with linkmanager.go and the readers and writers
-- that it puts around a link. Pipes, their ends and managed writers are numbered; the wrappers that
-- the code puts around an end are constructors.
pub mod Links
pub mod Managed
pub mod Sniffing
pub mod Override
pub mod Route
mod Tests
use ccaa.Base.{
  ℕ, ◌+◌, ℤ, String, string_eq, nat_eq, Bool, true, false, not, List, [], ◌∷◌, ◌++◌, Option, none,
  some, Assoc, load, store, delete, ◌==◌, if◌then◌else◌,
}
use ccaa.Counter.{TrafficCounter, new_traffic_counter, get_counter, Ref}
use ccaa.Limiter.Registry.{Registry}

pub data Direction : Type 0 where
  up down : Direction

-- A writer: an end of a pipe; the writer with that number of a user's link manager; behind a rate
-- limiter; behind a counter, which counts into one half of a storage.
pub data Writer (B : Type 0) : Type 0 where
  pipe_writer : ℕ → Writer B
  managed_writer : String → ℕ → Writer B → Writer B
  rate_limit_writer : B → Writer B → Writer B
  size_stat_writer : Ref → Direction → Writer B → Writer B

-- A reader: an end of a pipe; another one, which a caller of DispatchLink brings; one that counts
-- what it reads; one that keeps what it has read for the sniffers.
pub data Reader : Type 0 where
  pipe_reader given_reader : ℕ → Reader
  counter_reader : Ref → Reader → Reader
  cached_reader : Reader → Reader

pub record Link (B : Type 0) : Type 0 where
  pub reader : Reader
  pub writer : Writer B

-- What is done to the ends: `common.Close` of a writer, which each wrapper hands on, and
-- `common.Interrupt` of a reader.
pub data Effect : Type 0 where
  closes : ℕ → Effect
  interrupts : ℕ → Effect

abbrev pub writer_end : {B : Type 0} → Writer B → ℕ
writer_end (pipe_writer p) = p
writer_end (managed_writer u i w) = writer_end w
writer_end (rate_limit_writer b w) = writer_end w
writer_end (size_stat_writer r d w) = writer_end w

-- `common.Interrupt` of a reader: CounterReader has no Interrupt and no Close, so that nothing is done
-- to what it wraps; the cached reader hands an interrupt on to a pipe, and to nothing else.
abbrev pub interrupt : Reader → List Effect
interrupt (pipe_reader p) = interrupts p ∷ []
interrupt (given_reader p) = interrupts p ∷ []
interrupt (counter_reader r x) = []
interrupt (cached_reader (pipe_reader p)) = interrupts p ∷ []
interrupt (cached_reader (given_reader p)) = []
interrupt (cached_reader (counter_reader r x)) = []
interrupt (cached_reader (cached_reader x)) = []

-- A writer is closed, and a reader interrupted.
abbrev pub close_ends : {B : Type 0} → Writer B → Reader → List Effect
close_ends w x = closes (writer_end w) ∷ interrupt x

-- `LinkManager`: the managed writers that are open, each with the writer that it wraps, and the
-- reader of its link.
pub record ManagedLink (B : Type 0) : Type 0 where
  pub writer : Writer B
  pub reader : Reader

abbrev pub LinkManager : Type 0 → Type 0
LinkManager B = Assoc ℕ (ManagedLink B)

-- `registry` is the limiter package's. `next` is the first number of no managed writer.
pub record Dispatcher (R B : Type 0) : Type 0 where
  pub registry : Registry R B
  pub counter : Assoc String TrafficCounter
  pub same_tag_outbound : Assoc String Bool
  pub link_managers : Assoc String (LinkManager B)
  pub next : ℕ

unfoldable pub add_link : {B : Type 0} → ℕ → ManagedLink B → LinkManager B → LinkManager B
add_link w l m = store w l m

unfoldable pub remove_writer : {B : Type 0} → ℕ → LinkManager B → LinkManager B
remove_writer w m = delete w m

-- The loop of `CloseAll`: to close a managed writer takes it off the map and closes what it wraps.
unfoldable pub close_links :
    {B : Type 0} → LinkManager B → LinkManager B → LinkManager B × List Effect
close_links [] m = (m, [])
close_links ((w, l) ∷ ls) m =
    let (m', out) = close_links ls (remove_writer w m) in (m', close_ends l.writer l.reader ++ out)

unfoldable pub close_all : {B : Type 0} → LinkManager B → LinkManager B × List Effect
close_all m = close_links m m

abbrev pub or_false : Option Bool → Bool
or_false none = false
or_false (some b) = b

module _ {R B : Type 0} where
  unfoldable pub set_same_tag_outbound : String → Bool → Dispatcher R B → Dispatcher R B
  set_same_tag_outbound tag enabled d =
      if tag == ""
      then d
      else if enabled
      then record d { same_tag_outbound = store tag true d.same_tag_outbound }
      else record d { same_tag_outbound = delete tag d.same_tag_outbound }

  unfoldable pub can_use_same_tag_outbound : String → Dispatcher R B → Bool
  can_use_same_tag_outbound tag d =
      if tag == "" then false else or_false (load tag d.same_tag_outbound)

  -- The manager of a user, made if there is none, and the counter of a tag.
  abbrev pub manager_of : String → Dispatcher R B → LinkManager B
  manager_of user d = elim (load user d.link_managers) [ none ↦ [] | some m ↦ m ]

  abbrev pub counter_of : String → Dispatcher R B → TrafficCounter
  counter_of tag d = elim (load tag d.counter) [ none ↦ new_traffic_counter | some c ↦ c ]

  -- To close a writer: a managed one is taken off its manager first.
  unfoldable pub forget_writer : String → ℕ → Dispatcher R B → Dispatcher R B
  forget_writer user w d = elim (load user d.link_managers) [
    | none ↦ d
    | some m ↦ record d { link_managers = store user (remove_writer w m) d.link_managers }
  ]

  unfoldable pub close_writer : Writer B → Dispatcher R B → Dispatcher R B × List Effect
  close_writer (pipe_writer p) d = (d, closes p ∷ [])
  close_writer (managed_writer u i w) d = close_writer w (forget_writer u i d)
  close_writer (rate_limit_writer b w) d = close_writer w d
  close_writer (size_stat_writer r x w) d = close_writer w d
