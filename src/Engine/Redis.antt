-- ===== src/Engine/Redis.antt =====
-- What the engine relies on in Redis: the commands that it sends, each atomic, and their documented
-- effects. A hash is read by HGET and HMGET and written by HSET; PEXPIRE with a time that is not
-- positive deletes its key; XADD with "*" appends an entry under an id that Redis picks. The engine
-- uses no key with two types, so hashes and streams are kept apart. A key whose time to live has
-- passed is deleted: that is `pexpire` with 0, made by the environment between two scripts.
pub mod Simple
use auctioneer.Base.{
  ◌≡◌, Bool, false, ◌&&◌, Option, none, some, List, [], ◌∷◌, ◌++◌, if◌then◌else◌, ℤ, pos, leb_ℤ,
  Lacks,
}
use auctioneer.Text.{Bytes, bytes_eq}

abbrev pub Fields : Type 0
Fields = List (Bytes × Bytes)

-- The value of field `f` after HSET with `fs`, where it was `old` before.
abbrev pub written : Fields → Bytes → Option Bytes → Option Bytes
written [] f old = old
written ((g, v) ∷ fs) f old = written fs f (if bytes_eq g f then some v else old)

pub record Redis : Type 1 where
  pub Db : Type 0
  pub hget : Db → Bytes → Bytes → Option Bytes
  pub hset : Db → Bytes → Fields → Db
  pub pexpire : Db → Bytes → ℤ → Db
  pub xadd : Db → Bytes → Fields → Db
  pub xadd_id : Db → Bytes → Bytes
  pub stream : Db → Bytes → List (Bytes × Fields)
  -- The text of the error reply where a script raised an error.
  pub script_error : Bytes
  pub hget-hset :
      (d : Db) (k : Bytes) (fs : Fields) (j f : Bytes)
      → hget (hset d k fs) j f ≡ (if bytes_eq k j then written fs f (hget d j f) else hget d j f)
  pub hget-pexpire :
      (d : Db) (k : Bytes) (ttl : ℤ) (j f : Bytes)
      → hget (pexpire d k ttl) j f
        ≡ (if bytes_eq k j && leb_ℤ ttl (pos 0) then none else hget d j f)
  pub hget-xadd :
      (d : Db) (k : Bytes) (fs : Fields) (j f : Bytes) → hget (xadd d k fs) j f ≡ hget d j f
  pub stream-hset :
      (d : Db) (k : Bytes) (fs : Fields) (j : Bytes) → stream (hset d k fs) j ≡ stream d j
  pub stream-pexpire :
      (d : Db) (k : Bytes) (ttl : ℤ) (j : Bytes)
      → bytes_eq k j ≡ false
      → stream (pexpire d k ttl) j ≡ stream d j
  pub stream-xadd :
      (d : Db) (k : Bytes) (fs : Fields) (j : Bytes)
      → stream (xadd d k fs) j
        ≡ (if bytes_eq k j then stream d j ++ (xadd_id d k, fs) ∷ [] else stream d j)
  -- An id is two decimal numbers joined by a dash.
  pub xadd_id-Lacks : (d : Db) (k : Bytes) → Lacks b'|' (xadd_id d k)
