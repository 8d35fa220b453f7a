-- ===== src/Engine/Redis/Simple.antt =====
-- A Redis that runs: hashes and streams as functions of their keys, the ids of a stream counted up.
-- It shows that the assumptions on Redis can be met, and the tests run on it.
use auctioneer.Base.{
  ◌≡◌, refl, Option, none, List, [], ◌∷◌, ◌++◌, if◌then◌else◌, ◌&&◌, false, ℤ, pos, leb_ℤ, length,
  Lacks, All-append, arith,
}
use auctioneer.Text.{Bytes, codes, bytes_eq}
use auctioneer.Text.Decimal.{print_int, print_int-Lacks}
use auctioneer.Engine.Redis.{Fields, Redis, written}

pub record Db : Type 0 where
  pub hashes : Bytes → Bytes → Option Bytes
  pub streams : Bytes → List (Bytes × Fields)

abbrev pub next_id : Db → Bytes → Bytes
next_id d k = codes "1-" ++ print_int (pos (length (d.streams k)))

pub next_id-Lacks : (d : Db) (k : Bytes) → Lacks b'|' (next_id d k)
next_id-Lacks d k =
    All-append (λ c. ¬ (c ≡ b'|')) (codes "1-") _ (omega arith)
      (print_int-Lacks (pos (length (d.streams k))))

pub stream_kept :
    (d : Db) (k : Bytes) (ttl : ℤ) (j : Bytes)
    → bytes_eq k j ≡ false
    → (if bytes_eq k j && leb_ℤ ttl (pos 0) then [] else d.streams j) ≡ d.streams j
stream_kept d k ttl j e = rw e

abbrev pub simple : Redis
simple = record {
  Db = Db;
  hget = λ d k f. d.hashes k f;
  hset = λ d k fs. record d {
    hashes = λ j f. if bytes_eq k j then written fs f (d.hashes j f) else d.hashes j f;
  };
  pexpire = λ d k ttl. record {
    hashes = λ j f. if bytes_eq k j && leb_ℤ ttl (pos 0) then none else d.hashes j f;
    streams = λ j. if bytes_eq k j && leb_ℤ ttl (pos 0) then [] else d.streams j;
  };
  xadd = λ d k fs. record d {
    streams = λ j. if bytes_eq k j then d.streams j ++ (next_id d k, fs) ∷ [] else d.streams j;
  };
  xadd_id = next_id;
  stream = λ d k. d.streams k;
  script_error = codes "ERR user_script";
  hget-hset = λ d k fs j f. refl;
  hget-pexpire = λ d k ttl j f. refl;
  hget-xadd = λ d k fs j f. refl;
  stream-hset = λ d k fs j. refl;
  stream-pexpire = stream_kept;
  stream-xadd = λ d k fs j. refl;
  xadd_id-Lacks = next_id-Lacks;
}

abbrev pub empty : Db
empty = record { hashes = λ k f. none; streams = λ k. [] }
