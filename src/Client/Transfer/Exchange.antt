-- ===== src/Client/Transfer/Exchange.antt =====
-- A transfer in the abstract: what goes over the wire and what the client is left with, with no
-- buffers, blocks or machine integers. It specifies the run of a transfer against the callbacks of
-- src/vme/vantiq_client.c.
use vantiq_sdk_micro.Base.{
  ℕ, ◌<◌, ◌+◌, ◌≡◌, Option, none, some, List, ◌∷◌, ◌++◌, Bytes, length, take, drop, size_mod,
}
use vantiq_sdk_micro.Buf.Contents.{IsSmall}
use vantiq_sdk_micro.Curl.{Transfer, finished, header, chunk, pull}
use vantiq_sdk_micro.Client.{Callback}
use vantiq_sdk_micro.Client.Callbacks.Headers.{counted}

-- The count shown last, the body received, what is still to be sent, and the calls made of the
-- application.
pub record Exchange : Type 0 where
  pub count : ℕ
  pub body : Bytes
  pub to_send : Bytes
  pub calls : List (ℕ × Bytes)

-- How a transfer ends.
pub record Ending : Type 0 where
  pub code : ℕ
  pub status : ℕ
  pub message : Bytes
  pub last : Exchange

abbrev or_else : Option ℕ → ℕ → ℕ
or_else none d = d
or_else (some n) d = n

-- After a header line.
abbrev pub headed : Bytes → Exchange → Exchange
headed line x = record x { count = or_else (counted line x.count) x.count }

abbrev pub sent : ℕ → Exchange → Exchange
sent room x = record x { to_send = drop room x.to_send }

module _ (callback : Option Callback) (state : ℕ) where
  -- After a chunk of the body, and the size that is answered.
  abbrev taken_by : Option Callback → Bytes → Exchange → Exchange × ℕ
  taken_by none bytes x = (record x { body = x.body ++ bytes }, length bytes)
  taken_by (some f) bytes x = (record x { calls = (state, bytes) ∷ x.calls }, f x.calls state bytes)

  abbrev pub taken : Bytes → Exchange → Exchange × ℕ
  taken = taken_by callback

  unfoldable pub exchange : Transfer → Exchange → Ending
  exchange (finished code status message) x = record {
    code = code;
    status = status;
    message = message;
    last = x;
  }
  exchange (header line k) x = exchange (k (length line)) (headed line x)
  exchange (chunk bytes k) x = exchange (k (taken bytes x).1) (taken bytes x).0
  exchange (pull room k) x = exchange (k (take room x.to_send)) (sent room x)

  -- What is asked of the peer and of libcurl: sizes far below 2 ^ 64, and count headers that show an
  -- `int` in fewer than 32 bytes.
  abbrev pub IsServed : Transfer → Exchange → Type 0
  IsServed (finished code status message) x = Unit
  IsServed (header line k) x =
      (length line < size_mod)
      × ((n : ℕ) × (counted line x.count ≡ some n))
      × IsServed (k (length line)) (headed line x)
  IsServed (chunk bytes k) x =
      IsSmall (length x.body + length bytes) × IsServed (k (taken bytes x).1) (taken bytes x).0
  IsServed (pull room k) x = (room < size_mod) × IsServed (k (take room x.to_send)) (sent room x)
