-- ===== src/Api/Calls/Sequence.antt =====
-- Sequences of calls on one handle: what stays as it is, and what is left of them.
use mathlib.Core.Path.{subst, ap₂}
use vantiq_sdk_micro.Base.{
  ℕ, ◌+◌, ◌≤◌, ◌≡◌, refl, ap, ◌∙◌, sym, true, some, List, [], ◌∷◌, Bytes, arith, length, ◌==◌,
}
use vantiq_sdk_micro.Memory.{World, at_live, Granting}
use vantiq_sdk_micro.Memory.Returns.{Returns, returns, bind, mono}
use vantiq_sdk_micro.Curl.{Setting, Curl}
use vantiq_sdk_micro.Client.{Client, Handle, vc_magic, vc_is_valid}
use vantiq_sdk_micro.Client.Transfer.{VmeResult}
use vantiq_sdk_micro.Client.Request.Done.{Done, ending}
use vantiq_sdk_micro.Client.Request.Verbs.{IsClient}
use vantiq_sdk_micro.Api.Guard.{lost, free-Done}
use vantiq_sdk_micro.Api.Calls.{
  Call, select, select_count, select_one, insert, update, upsert, delete, delete_count, publish,
  execute, query_source, aggregate, calls, plan_of, message_of, Ready, call-DoneOn,
}

-- The client `c` with another count, other buffers and another state of libcurl's handle.
abbrev pub moved_on : Client → Client → Client
moved_on c d = record c {
  result_count = d.result_count;
  recv_buf = d.recv_buf;
  send_state = d.send_state;
  curl = d.curl;
}

module _ (curl : Curl) where
  -- What a call leaves behind `vme_free_result`.
  pub record Follows (k : Call) (c : Client) (w : World) (d : Client) (v : World) : Type 0 where
    pub same : d ≡ moved_on c d
    pub is_client : IsClient d
    pub sent : d.curl.sent ≡ plan_of curl k c w ∷ c.curl.sent
    pub lost_blocks : ℕ
    pub at_most : lost_blocks ≤ 1
    pub world : v ≡ record w { live = lost_blocks + w.live; app_calls = v.app_calls }

  -- Each call in turn keeps to the bounds, whatever the calls before have left.
  abbrev pub Bounded : List Call → Client → World → Type 0
  Bounded [] c w = Unit
  Bounded (k ∷ ks) c w =
      Ready curl k c w × ((d : Client) (v : World) → Follows k c w d v → Bounded ks d v)

  lost_bounds : (code status : ℕ) (body : Bytes) → lost curl code status body ≤ 1
  lost_bounds code status [] = omega arith
  lost_bounds code status (b ∷ bs) = ground arith

  Done-Follows :
      (k : Call) (r : VmeResult) {c d : Client} {w w' : World}
      → Done curl c w (plan_of curl k c w) (message_of curl k c) (r, d) w'
      → let e = ending curl c w (plan_of curl k c w) (message_of curl k c) in
        Follows k c w d (at_live w' (lost curl e.code e.status e.last.body + w.live))
  Done-Follows k r {c} {d} {w} {w'} q =
      let e = ending curl c w (plan_of curl k c w) (message_of curl k c) in
      let n = lost curl e.code e.status e.last.body in
      record {
        same = q.client ∙ ap (moved_on c) (sym q.client);
        is_client = record { buffer = q.buffer.is_buf; in_block = q.in_block };
        sent = ap (λ (x : Client). x.curl.sent) q.client;
        lost_blocks = n;
        at_most = lost_bounds e.code e.status e.last.body;
        world =
            ap (λ u. at_live u (n + w.live)) q.world
            ∙ ap (λ x. record w { live = n + w.live; app_calls = x })
                (sym (ap (λ (u : World). u.app_calls) q.world));
      }

  -- Behind a call and `vme_free_result` the client and the world follow those before.
  call-bind :
      {Q : Handle → World → Type 0} (k : Call) (ks : List Call) (c : Client) (w : World)
      → Granting w
      → vc_is_valid (some c) ≡ true
      → IsClient c
      → Ready curl k c w
      → ((d : Client) (v : World) → Follows k c w d v → Returns Q (calls curl ks (some d) v))
      → Returns Q (calls curl (k ∷ ks) (some c) w)
  call-bind {Q} k ks c w g valid v r next = bind (call-DoneOn curl c w g valid v k r) λ x u q.
      let e = ending curl c w (plan_of curl k c w) (message_of curl k c) in
      let m = lost curl e.code e.status e.last.body + w.live in
      rw (free-Done curl q.done) (
        subst (λ h. Returns Q (calls curl ks h (at_live u m))) (sym q.handle)
          (next q.client (at_live u m) (Done-Follows k x.0 q.done)))

  -- The requests of the calls, each with its settings, the latest first.
  abbrev pub requests : List Call → Client → World → List (List Setting) → List (List Setting)
  requests [] c w sent = sent
  requests (k ∷ ks) c w sent = requests ks c w (plan_of curl k c w ∷ sent)

  -- What a call asks for depends on nothing that a call changes.
  plan_of-moved_on :
      (k : Call) (c d : Client) (w : World) (live : ℕ) (v : World)
      → plan_of curl k (moved_on c d) (record w { live = live; app_calls = v.app_calls })
        ≡ plan_of curl k c w
  plan_of-moved_on (select rs_uri prop_specs where' sort_spec page limit) c d w live v = refl
  plan_of-moved_on (select_count rs_uri prop_specs where' sort_spec) c d w live v = refl
  plan_of-moved_on (select_one rs_uri props where') c d w live v = refl
  plan_of-moved_on (insert rs_uri json size) c d w live v = refl
  plan_of-moved_on (update rs_uri json size) c d w live v = refl
  plan_of-moved_on (upsert rs_uri json size) c d w live v = refl
  plan_of-moved_on (delete rs_uri where') c d w live v = refl
  plan_of-moved_on (delete_count rs_uri where') c d w live v = refl
  plan_of-moved_on (publish topic json size) c d w live v = refl
  plan_of-moved_on (execute proc_id args_doc) c d w live v = refl
  plan_of-moved_on (query_source source_id q_params) c d w live v = refl
  plan_of-moved_on (aggregate first rest pipeline) c d w live v = refl

  -- What a sequence of calls leaves: the client has changed only in its count, its buffers and libcurl's
  -- handle, and the blocks are as many as before but for those lost.
  pub record Followed (ks : List Call) (c : Client) (w : World) (h : Handle) (v : World)
      : Type 0 where
    pub client : Client
    pub handle : h ≡ some client
    pub same : client ≡ moved_on c client
    pub valid : vc_is_valid (some client) ≡ true
    pub is_client : IsClient client
    pub sent : client.curl.sent ≡ requests ks c w c.curl.sent
    pub lost_blocks : ℕ
    pub at_most : lost_blocks ≤ length ks
    pub world : v ≡ record w { live = lost_blocks + w.live; app_calls = v.app_calls }

  requests-moved_on :
      (ks : List Call) (c d : Client) (w : World) (live : ℕ) (v : World)
      (sent : List (List Setting))
      → requests ks (moved_on c d) (record w { live = live; app_calls = v.app_calls }) sent
        ≡ requests ks c w sent
  requests-moved_on [] c d w live v sent = refl
  requests-moved_on (k ∷ ks) c d w live v sent =
      requests-moved_on ks c d w live v _
      ∙ ap (λ s. requests ks c w (s ∷ sent)) (plan_of-moved_on k c d w live v)

  moved_on_valid :
      (c d : Client) → d ≡ moved_on c d → vc_is_valid (some c) ≡ true → vc_is_valid (some d) ≡ true
  unfolding vc_is_valid
  moved_on_valid c d e valid = ap (λ (x : Client). x.magic == vc_magic) e ∙ valid

  Followed-behind :
      (k : Call) (ks : List Call) (c d : Client) (w v : World) (h : Handle) (u : World)
      → Follows k c w d v
      → Followed ks d v h u
      → Followed (k ∷ ks) c w h u
  Followed-behind k ks c d w v h u f q = record {
    client = q.client;
    handle = q.handle;
    same = q.same ∙ ap (λ x. moved_on x q.client) f.same;
    valid = q.valid;
    is_client = q.is_client;
    sent =
        q.sent
        ∙ ap (λ s. requests ks d v s) f.sent
        ∙ ap₂ (λ x y. requests ks x y (plan_of curl k c w ∷ c.curl.sent)) f.same f.world
        ∙ requests-moved_on ks c d w (f.lost_blocks + w.live) v (plan_of curl k c w ∷ c.curl.sent);
    lost_blocks = q.lost_blocks + f.lost_blocks;
    at_most = omega (arith, q.at_most, f.at_most);
    world =
        q.world
        ∙ ap (λ (x : World). record x { live = q.lost_blocks + v.live; app_calls = u.app_calls })
            f.world
        ∙ ap (λ n. record w { live = n; app_calls = u.app_calls })
            (omega (arith, ap (λ (x : World). x.live) f.world));
  }

  -- On a valid handle whose buffers are in order, with every allocation granted, any sequence of
  -- calls of twelve of the entry points, each with vme_free_result behind it and each keeping to
  -- the bounds whatever the calls before have left, returns: the handle leads to the same
  -- client, still valid and with its buffers in order, of which nothing has changed but its
  -- count, its buffers and the handle of libcurl; just one request was made for each call, in
  -- order, with the options that the call asks for at the start; and there are as many blocks as
  -- before and at most one more for each call.
  pub calls-Followed :
      (ks : List Call) (c : Client) (w : World)
      → Granting w
      → vc_is_valid (some c) ≡ true
      → IsClient c
      → Bounded ks c w
      → Returns (Followed ks c w) (calls curl ks (some c) w)
  calls-Followed [] c w g valid v b = returns (record {
    client = c;
    handle = refl;
    same = refl;
    valid = valid;
    is_client = v;
    sent = refl;
    lost_blocks = 0;
    at_most = omega arith;
    world = ap (at_live w) (omega arith);
  })
  calls-Followed (k ∷ ks) c w g valid v (ready, rest) = call-bind k ks c w g valid v ready λ d u f.
      let g' : Granting u = ap (λ (x : World). x.ration) f.world ∙ g in
      mono (calls-Followed ks d u g' (moved_on_valid c d f.same valid) f.is_client (rest d u f))
        λ h x q. Followed-behind k ks c d w u h x f q
