-- ===== src/SslTable.antt =====
-- server/srcs/server/ssl_table.c: the hash table from sockets to TLS sessions. A session is a
-- pointer, a number here; a chain of entries is a list. A socket is not negative.
pub mod Lookup
use zappy.Prelude.{
  ℕ, ◌%◌, ◌==◌, if◌then◌else◌, Bool, true, false, Option, none, some, List, [], ◌∷◌, Status,
  success, error,
}

-- INITIAL_BUCKET_COUNT
abbrev pub initial_bucket_count : ℕ
initial_bucket_count = 128

pub record SslEntry : Type 0 where
  pub fd : ℕ
  pub ssl : ℕ

-- `table` and `ssl_table_initialized`. The array of buckets is a function of the index.
pub record SslTable : Type 0 where
  pub initialized : Bool
  pub bucket_count : ℕ
  pub buckets : ℕ → List SslEntry

-- The remainder by 0, which is undefined in C, is never taken before `ssl_table_free`.
unfoldable pub hash_fd : SslTable → ℕ → ℕ
hash_fd t fd = fd % t.bucket_count

unfoldable pub ssl_table_init : SslTable
ssl_table_init = record {
  initialized = true;
  bucket_count = initial_bucket_count;
  buckets = λ i. [];
}

-- The entries are freed; `ssl_table_initialized` is left as it is.
unfoldable pub ssl_table_free : SslTable → SslTable
ssl_table_free t = if t.initialized then record t { bucket_count = 0; buckets = λ i. [] } else t

abbrev pub set_bucket : SslTable → ℕ → List SslEntry → SslTable
set_bucket t i chain = record t { buckets = λ j. if i == j then chain else t.buckets j }

-- The loop of `ssl_table_add`: the entry of the socket gets the session; `none` if there is no
-- such entry.
unfoldable pub replace_entry : ℕ → ℕ → List SslEntry → Option (List SslEntry)
replace_entry fd ssl [] = none
replace_entry fd ssl (e ∷ chain) =
    if e.fd == fd
    then some (record e { ssl = ssl } ∷ chain)
    else elim (replace_entry fd ssl chain) [ none ↦ none | some rest ↦ some (e ∷ rest) ]

-- `allocated` tells whether `malloc` returns memory.
unfoldable pub insert_entry :
    Bool → ℕ → ℕ → List SslEntry → Option (List SslEntry) → Option (List SslEntry)
insert_entry allocated fd ssl chain (some replaced) = some replaced
insert_entry true fd ssl chain none = some (record { fd = fd; ssl = ssl } ∷ chain)
insert_entry false fd ssl chain none = none

abbrev pub store : SslTable → ℕ → Option (List SslEntry) → Status × SslTable
store t i none = (error, t)
store t i (some chain) = (success, set_bucket t i chain)

unfoldable pub ssl_table_add : Bool → SslTable → ℕ → ℕ → Status × SslTable
unfolding hash_fd replace_entry insert_entry
ssl_table_add allocated t fd ssl =
    let chain = t.buckets (hash_fd t fd) in
    if t.initialized
    then store t (hash_fd t fd) (insert_entry allocated fd ssl chain (replace_entry fd ssl chain))
    else (error, t)

-- The loop of `ssl_table_get`.
unfoldable pub find_entry : ℕ → List SslEntry → Option ℕ
find_entry fd [] = none
find_entry fd (e ∷ chain) = if e.fd == fd then some e.ssl else find_entry fd chain

unfoldable pub ssl_table_get : SslTable → ℕ → Option ℕ
unfolding hash_fd find_entry
ssl_table_get t fd = if t.initialized then find_entry fd (t.buckets (hash_fd t fd)) else none

-- The loop of `ssl_table_remove`: the first entry of the socket is unlinked.
unfoldable pub unlink_entry : ℕ → List SslEntry → List SslEntry
unlink_entry fd [] = []
unlink_entry fd (e ∷ chain) = if e.fd == fd then chain else e ∷ unlink_entry fd chain

unfoldable pub ssl_table_remove : SslTable → ℕ → SslTable
unfolding hash_fd unlink_entry
ssl_table_remove t fd =
    if t.initialized
    then set_bucket t (hash_fd t fd) (unlink_entry fd (t.buckets (hash_fd t fd)))
    else t
