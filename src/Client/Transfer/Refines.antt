-- ===== src/Client/Transfer/Refines.antt =====
-- A transfer run against the callbacks of src/vme/vantiq_client.c does what the abstract exchange
-- does, and touches nothing else.
use mathlib.Core.Path.{ap₂}
use vantiq_sdk_micro.Base.{
  size_mod, ℕ, ◌≤◌, ◌<◌, ◌≡◌, refl, ap, ◌∙◌, Option, none, some, ◌∷◌, ◌++◌, Bytes, arith, length,
  take, drop,
}
use vantiq_sdk_micro.Memory.{World, ok, Granting}
use vantiq_sdk_micro.Memory.Returns.{Returns, returns}
use vantiq_sdk_micro.Buf.{Vmebuf}
use vantiq_sdk_micro.Buf.Growth.{Holds}
use vantiq_sdk_micro.Curl.{Transfer, finished, header, chunk, pull}
use vantiq_sdk_micro.Client.{Client, Callback}
use vantiq_sdk_micro.Client.Callbacks.{header_callback, write_callback, read_callback}
use vantiq_sdk_micro.Client.Callbacks.Headers.{counted, with_count, header_callback_lem}
use vantiq_sdk_micro.Client.Callbacks.Body.{
  Received-bind, write_callback-Received, write_callback-app, unsent, advance, read_callback_lem,
}
use vantiq_sdk_micro.Client.Transfer.{Outcome, run_transfer}
use vantiq_sdk_micro.Client.Transfer.Exchange.{Exchange, Ending, headed, sent, exchange, IsServed}

-- The client `c` stands where the exchange `x` does, and is `c₀` but for what a transfer changes.
pub record Reflects (c₀ : Client) (w₀ : World) (x : Exchange) (c : Client) (w : World)
    : Type 0 where
  pub holds : Holds x.body c.recv_buf
  pub counts : c.result_count ≡ x.count
  pub sends : unsent c.send_state ≡ x.to_send
  pub in_block : c.send_state.sizeleft ≤ length c.send_state.readptr
  pub frame : c ≡ record c₀ {
    result_count = c.result_count;
    recv_buf = c.recv_buf;
    send_state = c.send_state;
    curl = record c₀.curl { response_code = c.curl.response_code };
  }
  pub world : w ≡ record w₀ { app_calls = x.calls }

module _ {c₀ : Client} {w₀ : World} {x : Exchange} {c : Client} {w : World}
    (r : Reflects c₀ w₀ x c w) where
  Reflects-header :
      (n : ℕ) (line : Bytes)
      → counted line x.count ≡ some n
      → Reflects c₀ w₀ (headed line x) (record c { result_count = n }) w
  Reflects-header n line e = record {
    holds = r.holds;
    counts = rw e;
    sends = r.sends;
    in_block = r.in_block;
    frame = ap (λ (d : Client). record d { result_count = n }) r.frame;
    world = r.world;
  }

  Reflects-buffer :
      (b : Vmebuf) (bytes : Bytes)
      → Holds (x.body ++ bytes) b
      → Reflects c₀ w₀ (record x { body = x.body ++ bytes }) (record c { recv_buf = b }) w
  Reflects-buffer b bytes h = record {
    holds = h;
    counts = r.counts;
    sends = r.sends;
    in_block = r.in_block;
    frame = ap (λ (d : Client). record d { recv_buf = b }) r.frame;
    world = r.world;
  }

  Reflects-call :
      (state : ℕ) (bytes : Bytes)
      → Reflects c₀ w₀
          (record x { calls = (state, bytes) ∷ x.calls })
          c
          (record w { app_calls = (state, bytes) ∷ w.app_calls })
  Reflects-call state bytes = record {
    holds = r.holds;
    counts = r.counts;
    sends = r.sends;
    in_block = r.in_block;
    frame = r.frame;
    world = ap (λ (v : World). record v { app_calls = (state, bytes) ∷ v.app_calls }) r.world;
  }

  Reflects-pull :
      (room : ℕ)
      → let rest = advance room c.send_state in
        (unsent rest ≡ drop room (unsent c.send_state))
        → rest.sizeleft ≤ length rest.readptr
        → Reflects c₀ w₀ (sent room x) (record c { send_state = rest }) w
  Reflects-pull room e k = record {
    holds = r.holds;
    counts = r.counts;
    sends = e ∙ ap (drop room) r.sends;
    in_block = k;
    frame = ap (λ (d : Client). record d { send_state = advance room c.send_state }) r.frame;
    world = r.world;
  }

  Reflects-status :
      (n : ℕ) → Reflects c₀ w₀ x (record c { curl = record c.curl { response_code = n } }) w
  Reflects-status n = record {
    holds = r.holds;
    counts = r.counts;
    sends = r.sends;
    in_block = r.in_block;
    frame = ap (λ (d : Client). record d { curl = record d.curl { response_code = n } }) r.frame;
    world = r.world;
  }

  Reflects-Granting : Granting w₀ → Granting w
  Reflects-Granting g = ap (λ (v : World). v.ration) r.world ∙ g

  same_calls : w.app_calls ≡ x.calls
  same_calls = ap (λ (v : World). v.app_calls) r.world

  same_callback : c.recv_callback ≡ c₀.recv_callback
  same_callback = ap (λ (d : Client). d.recv_callback) r.frame

  same_state : c.callback_state ≡ c₀.callback_state
  same_state = ap (λ (d : Client). d.callback_state) r.frame

  header_step :
      (n : ℕ) (line : Bytes)
      → length line < size_mod
      → counted line x.count ≡ some n
      → header_callback line 1 (length line) c w ≡ ok (length line, record c { result_count = n }) w
  header_step n line h e =
      header_callback_lem line c w h
      ∙ ap (λ o. with_count o line c w) (ap (counted line) r.counts ∙ e)

  call_step :
      (a : Callback) (bytes : Bytes)
      → c₀.recv_callback ≡ some a
      → length bytes < size_mod
      → write_callback bytes 1 (length bytes) c w
        ≡ ok
            (a x.calls c₀.callback_state bytes, c)
            (record w { app_calls = (c₀.callback_state, bytes) ∷ w.app_calls })
  call_step a bytes e h =
      write_callback-app a bytes c w (same_callback ∙ e) h
      ∙ ap₂ (λ l n. ok (a l n bytes, c) (record w { app_calls = (n, bytes) ∷ w.app_calls }))
          same_calls same_state

  pull_step :
      (room : ℕ)
      → room < size_mod
      → let d = take room x.to_send in
        read_callback 1 room c w
        ≡ ok (length d, d, record c { send_state = advance room c.send_state }) w
  pull_step room h =
      (read_callback_lem room c w h r.in_block).0
      ∙ ap
          (λ u.
            ok
              (
                length (take room u),
                take room u,
                record c { send_state = advance room c.send_state },
              )
              w)
          r.sends

-- What a transfer that has ended as `e` leaves.
pub record Refined (c₀ : Client) (w₀ : World) (e : Ending) (r : Outcome × Client) (w : World)
    : Type 0 where
  pub code : r.0.code ≡ e.code
  pub message : r.0.message ≡ e.message
  pub status : r.1.curl.response_code ≡ e.status
  pub reflects : Reflects c₀ w₀ e.last r.1 w

module _ (c₀ : Client) (w₀ : World) (g : Granting w₀) where
  -- Running any finite dialogue of libcurl against the three callbacks refines the abstract
  -- exchange: if the allocator grants every request, the client reflects the exchange, and the
  -- dialogue keeps to sizes far below 2 ^ 64 and to count headers shorter than 46 bytes that
  -- show an int, then the run returns, with the code, status and message of the exchange; its
  -- body is in the receive buffer, its count is recorded, what is left of its message is what
  -- will still be sent, its calls are those made of the application, and nothing else of the
  -- client or the world has changed.
  pub run_transfer-Refined :
      (f : Option Callback) (t : Transfer) (x : Exchange) (c : Client) (w : World)
      → c₀.recv_callback ≡ f
      → Reflects c₀ w₀ x c w
      → IsServed f c₀.callback_state t x
      → Returns (Refined c₀ w₀ (exchange f c₀.callback_state t x)) (run_transfer t c w)
  unfolding exchange run_transfer
  run_transfer-Refined f (finished code status message) x c w e r s =
      returns
        (record { code = refl; message = refl; status = refl; reflects = Reflects-status r status })
  run_transfer-Refined f (header line k) x c w e r (h, (n, m), s) = rw (header_step r n line h m) (
      run_transfer-Refined f (k (length line)) (headed line x) (record c { result_count = n }) w e
        (Reflects-header r n line m) s)
  run_transfer-Refined none (chunk bytes k) x c w e r (small, s) =
      Received-bind _
        (write_callback-Received bytes w (Reflects-Granting r g) (same_callback r ∙ e) r.holds
          small)
        λ b h.
          run_transfer-Refined none (k (length bytes)) (record x { body = x.body ++ bytes })
            (record c { recv_buf = b }) w e (Reflects-buffer r b bytes h) s
  run_transfer-Refined (some a) (chunk bytes k) x c w e r (small, s) =
      let state = c₀.callback_state in
      rw (call_step r a bytes e (omega arith)) (
        run_transfer-Refined (some a) (k (a x.calls state bytes))
          (record x { calls = (state, bytes) ∷ x.calls }) c
          (record w { app_calls = (state, bytes) ∷ w.app_calls }) e (Reflects-call r state bytes) s)
  run_transfer-Refined f (pull room k) x c w e r (h, s) =
      let (_, rest, inside) = read_callback_lem room c w h r.in_block in
      rw (pull_step r room h) (
        run_transfer-Refined f (k (take room x.to_send)) (sent room x)
          (record c { send_state = advance room c.send_state }) w e
          (Reflects-pull r room rest inside) s)
