-- ===== src/Dpi/Message.antt =====
-- What `fetch_discovery_msg` of src/vipo/dpi_client.c returns, whatever arrives.
use mathlib.Core.Path.{subst, ap₂}
use vantiq_sdk_micro.Base.{
  suc, ◌+◌, ◌-◌, ◌*◌, ◌^◌, ◌<◌, ◌≡◌, ◌≢◌, refl, ap, ◌∙◌, sym, true, inl, inr, Option, none, some,
  [], ◌∷◌, ◌++◌, Bytes, arith, length, take,
}
use vantiq_sdk_micro.Memory.{World, at_live, Granting}
use vantiq_sdk_micro.Memory.Returns.{Returns, returns, bind, mono}
use vantiq_sdk_micro.Buf.{Vmebuf}
use vantiq_sdk_micro.Buf.Growth.{Holds, ensure_size-Allocated}
use vantiq_sdk_micro.Dpi.{
  Inbox, piece, Socket, timed_out, select_failed, ready, Activity, inbox_size, prot_eot,
  on_activity, fetch_discovery_msg,
}
use vantiq_sdk_micro.Dpi.Concluded.{IsEnd, Concluded, nothing, message, conclude-Ended}
use vantiq_sdk_micro.Dpi.Pieces.{Holds-len, NeverFills, receive_all_whole, receive_all_joined}
use vantiq_sdk_micro.Dpi.Stream.{stream, gathered, Delivers, receive_all-Gathered}

-- What is taken from the socket with a first buffer of 512 bytes.
abbrev pub message_of : Inbox → Bytes
message_of inbox = gathered (suc (inbox_size inbox)) 512 512 inbox

-- What `fetch_discovery_msg` has done. It did not come to `recv`; or what was taken is nothing or begins
-- like the end mark, and it returns NULL; or it has handed over what was taken, which is not nothing, as
-- a C string in one block. Where nothing is handed over the buffer of two blocks is kept.
pub data Fetched (activity : Activity) (inbox : Inbox) (w : World) (r : Option Bytes) (u : World)
    : Type 0 where
  waited :
      activity ≢ ready → r ≡ none → u ≡ at_live w (suc (suc w.live)) → Fetched activity inbox w r u
  ended :
      activity ≡ ready
      → IsEnd (message_of inbox)
      → r ≡ none
      → u ≡ at_live w (suc (suc w.live))
      → Fetched activity inbox w r u
  handed :
      activity ≡ ready
      → message_of inbox ≢ []
      → (rest : Bytes) → stream inbox ≡ message_of inbox ++ rest
      → r ≡ some (message_of inbox ++ 0 ∷ [])
      → u ≡ at_live w (suc w.live)
      → Fetched activity inbox w r u

Concluded-Fetched :
    (rest : Bytes) (inbox : Inbox) (w : World) {r : Option Bytes} {u : World}
    → stream inbox ≡ message_of inbox ++ rest
    → Concluded (message_of inbox) w.live (at_live w (suc (suc w.live))) r u
    → Fetched ready inbox w r u
Concluded-Fetched rest inbox w split (nothing end e f) = ended refl end e f
Concluded-Fetched rest inbox w split (message any e f) = handed refl any rest split e f

Concluded-whole :
    {s : Bytes} (w : World) {r : Option Bytes} {u : World}
    → s ≢ []
    → take 3 s ≢ prot_eot
    → Concluded s w.live (at_live w (suc (suc w.live))) r u
    → (r ≡ some (s ++ 0 ∷ [])) × (u ≡ at_live w (suc w.live))
Concluded-whole w any no_mark (nothing (inl empty) e f) = absurd (any empty)
Concluded-whole w any no_mark (nothing (inr mark) e f) = absurd (no_mark mark)
Concluded-whole w any no_mark (message some_bytes e f) = (e, f)

some_bytes : (p q : Bytes) → length p ≡ 512 → p ++ q ≢ []
some_bytes [] q e = absurd (omega arith)
some_bytes (c ∷ p) q e = λ f. cc

timed_out-ready : timed_out ≢ ready
timed_out-ready e = cc

select_failed-ready : select_failed ≢ ready
select_failed-ready e = cc

-- the socket that takes the acknowledgement
abbrev pub acknowledging : Activity → Inbox → Socket
acknowledging activity inbox = record { activity = activity; inbox = inbox; takes_ack = true }

module _ (w : World) (g : Granting w) where
  -- the world with a new buffer
  abbrev with_buffer : World
  with_buffer = at_live w (suc (suc w.live))

  fetch_ready :
      {Q : Option Bytes → World → Type 0} (inbox : Inbox)
      → ((b : Vmebuf)
          → Holds [] b
          → b.len < b.limit
          → b.limit ≡ 512
          → Returns Q (on_activity ready (acknowledging ready inbox) b with_buffer))
      → Returns Q (fetch_discovery_msg (acknowledging ready inbox) w)
  unfolding fetch_discovery_msg
  fetch_ready {Q} inbox next = bind (ensure_size-Allocated 512 w g (omega arith)) λ b u q.
      subst (λ v. Returns Q (on_activity ready (acknowledging ready inbox) b v)) (sym q.two_blocks)
        (next b q.holds (omega (arith, q.same_limit, Holds-len q.holds))
          (omega (arith, q.same_limit)))

  -- If every allocation is granted, the acknowledgement can be sent and recv never fails, then
  -- fetch_discovery_msg returns, however select ends and whatever arrives in pieces of any size,
  -- fewer than 2 ^ 61 bytes in all. What it takes are the pieces up to the first, that one
  -- included, that does not fill the room that is left, the room being 512 bytes and then that
  -- of a doubled buffer. If select found nothing, it returns NULL; otherwise it hands over what
  -- it took, which is not nothing, as a C string in the one block that is left, or returns NULL,
  -- and then what it took is nothing or begins with EOT. Wherever it returns NULL its buffer of
  -- two blocks is kept.
  pub fetch_discovery_msg-Fetched :
      (activity : Activity) (inbox : Inbox)
      → Delivers inbox
      → inbox_size inbox < 2 ^ 61
      → Returns (Fetched activity inbox w) (fetch_discovery_msg (acknowledging activity inbox) w)
  unfolding fetch_discovery_msg on_activity
  fetch_discovery_msg-Fetched timed_out inbox d small =
      bind (ensure_size-Allocated 512 w g (omega arith))
        λ b u q. returns (waited timed_out-ready refl q.two_blocks)
  fetch_discovery_msg-Fetched select_failed inbox d small =
      bind (ensure_size-Allocated 512 w g (omega arith))
        λ b u q. returns (waited select_failed-ready refl q.two_blocks)
  fetch_discovery_msg-Fetched ready inbox d small = fetch_ready inbox λ b h room limit.
      let n = suc (inbox_size inbox) in
      let left : b.limit - b.len ≡ 512 = omega (arith, Holds-len h) in
      let room_is : gathered n (b.limit - b.len) b.limit inbox ≡ message_of inbox =
        ap₂ (λ m k. gathered n m k inbox) left limit in
      bind
        (rw room_is at (
          receive_all-Gathered (suc (inbox_size inbox)) inbox with_buffer g h room (omega arith) d
            (omega (arith, Holds-len h)) (omega arith)))
        λ r u q.
          mono (conclude-Ended w.live with_buffer r u g refl q.ended)
            λ o v c. Concluded-Fetched q.rest inbox w q.split c

  -- If every allocation is granted, the socket is ready and the acknowledgement can be sent, and
  -- a message of fewer than 2 ^ 61 bytes arrives, which is not empty, does not begin with EOT,
  -- and whose length is not 512 times a power of 2, then fetch_discovery_msg returns the whole
  -- message as a C string in the one block that is left, whatever follows.
  pub fetch_discovery_msg_whole :
      (p : Bytes) (next : Inbox)
      → p ≢ []
      → take 3 p ≢ prot_eot
      → length p < 2 ^ 61
      → NeverFills 512 (length p)
      → Returns
          (λ r u. (r ≡ some (p ++ 0 ∷ [])) × (u ≡ at_live w (suc w.live)))
          (fetch_discovery_msg (acknowledging ready (piece p next)) w)
  unfolding on_activity
  fetch_discovery_msg_whole p next any no_mark small never =
      fetch_ready (piece p next) λ b h room limit.
        bind
          (receive_all_whole (suc (inbox_size (piece p next))) p next with_buffer g h room
            (omega arith)
            (λ k e.
              let len : length p ≡ b.len + length p = omega (arith, Holds-len h) in
              never k (len ∙ e ∙ ap (λ n. n * 2 ^ k) limit))
            (omega (arith, Holds-len h)) (omega arith))
          λ r u q.
            mono (conclude-Ended w.live with_buffer r u g refl q)
              λ o v c. Concluded-whole w any no_mark c

  -- If every allocation is granted, the socket is ready and the acknowledgement can be sent, and
  -- a message of just 512 bytes arrives, the size of the first buffer, and another of fewer than
  -- 2 ^ 61 bytes behind it, which do not begin with EOT and do not together fill a later buffer
  -- just to its end, then fetch_discovery_msg returns both as one C string.
  pub fetch_discovery_msg_joined :
      (p q : Bytes) (next : Inbox)
      → length p ≡ 512
      → take 3 (p ++ q) ≢ prot_eot
      → length q < 2 ^ 61
      → NeverFills 1024 (512 + length q)
      → Returns
          (λ r u. (r ≡ some ((p ++ q) ++ 0 ∷ [])) × (u ≡ at_live w (suc w.live)))
          (fetch_discovery_msg (acknowledging ready (piece p (piece q next))) w)
  unfolding on_activity
  fetch_discovery_msg_joined p q next size no_mark small never =
      fetch_ready (piece p (piece q next)) λ b h room limit.
        bind
          (receive_all_joined (inbox_size (piece p (piece q next))) p q next with_buffer g h
            (omega (arith, Holds-len h)) (omega arith) (rw limit never) (omega arith))
          λ r u e.
            mono (conclude-Ended w.live with_buffer r u g refl e)
              λ o v c. Concluded-whole w (some_bytes p q size) no_mark c
