-- ===== src/Vipo/Main.antt =====
-- A run of `main` of src/vipo/vipo.c from the settings to the end of the session.
use mathlib.Core.Path.{subst}
use vantiq_sdk_micro.Base.{
  ℕ, suc, ◌+◌, ◌≡◌, refl, ap, ◌∙◌, true, false, not, ◌&&◌, some, none, List, [], ◌∷◌, ◌++◌, Bytes,
  ℤ, arith, leb, ◌==◌, c_str, IsText, if◌then◌else◌,
}
use vantiq_sdk_micro.Memory.{World, ok, allocate, Granting}
use vantiq_sdk_micro.Memory.Returns.{Returns, returns, bind}
use vantiq_sdk_micro.Curl.{Curl, curle_ok}
use vantiq_sdk_micro.Client.{Client}
use vantiq_sdk_micro.Client.Request.Done.{IsServedBy, ending}
use vantiq_sdk_micro.Client.Request.Verbs.{IsUrl}
use vantiq_sdk_micro.Client.Session.Login.{first_client, first_plan, Opened, opening}
use vantiq_sdk_micro.Config.{Vmeconfig, vme_parse_config}
use vantiq_sdk_micro.Dpi.{Inbox, piece, ready}
use vantiq_sdk_micro.Dpi.Message.{acknowledging}
use vantiq_sdk_micro.Dpi.Connect.{Network, Attempt, connected}
use vantiq_sdk_micro.Dpi.Connect.Address.{AllFail, init_dpi_inet_client-connected}
use vantiq_sdk_micro.Api.Lifetime.{vme_init-Opened, vme_teardown_lem}
use vantiq_sdk_micro.Api.Invoke.Done.{IsTopic}
use vantiq_sdk_micro.Vipo.{main, open_socket, discovery_topic}
use vantiq_sdk_micro.Vipo.Publish.{
  IsMessage, read_behind_lem, topic_url, topic_plan, publish_message_publishes,
}

-- Settings with a URL that is not empty, a token and a port.
pub record HasSettings (config : Vmeconfig) (x : ℕ) (s token port : Bytes) : Type 0 where
  pub url : config.vantiq_url ≡ some (x ∷ s ++ 0 ∷ [])
  pub token_text : config.vantiq_token ≡ some (token ++ 0 ∷ [])
  pub port_text : config.dpi_port ≡ some port
  pub url_IsText : IsText (x ∷ s)
  pub token_IsText : IsText token

-- The URL keeps to the bounds, and the server takes the message.
pub record Accepts (curl : Curl) (p : Bytes) (c : Client) (w : World) : Type 0 where
  pub is_url : IsUrl (topic_url curl c)
  pub served : IsServedBy curl c w (topic_plan curl c w p) p
  pub fine : ((ending curl c w (topic_plan curl c w p) p).code == curle_ok) ≡ true
  pub low : leb 400 (ending curl c w (topic_plan curl c w p) p).status ≡ false

module _ (curl : Curl) (net : Network) (x : ℕ) (s token port p : Bytes) (next : Inbox) where
  -- If the settings are read and have a port, a token and a URL that is not empty, every
  -- allocation is granted from then on, some address of the port can be connected, a message
  -- that is a C string arrives there as a whole, libcurl starts up, the server keeps to the
  -- bounds, the login is not refused, and the message is answered with a status below 400, then
  -- main of the command line tool runs to its end with the status 0, and leaves two blocks
  -- besides the settings: the server's URL and the struct of the socket, which stays open.
  pub main-Returns :
      (file : Bytes) (config : Vmeconfig) (n : ℤ) (failed others : List Attempt) (w u : World)
      (g : Granting u)
      → vme_parse_config (some file) w ≡ ok (config, n) u
      → HasSettings config x s token port
      → AllFail failed
      → net.resolve (c_str port)
        ≡ some (failed ++ connected (acknowledging ready (piece p next)) ∷ others)
      → (curl.global_init == curle_ok) ≡ true
      → curl.easy_init ≡ true
      → IsServedBy curl (first_client curl (x ∷ s) token 1) u (first_plan curl u (x ∷ s) token) []
      → let e = opening curl x s token 1 u g in
        not (e.code == curle_ok) && not (e.status == 200) ≡ false
        → IsMessage p
        → ((c : Client) (v : World)
            → Opened curl (x ∷ s) token 1 u e (some c) v
            → Accepts curl p c v)
        → Returns
            (λ r v. (r ≡ 0) × (v.live ≡ 2 + u.live) × (v.sockets ≡ suc u.sockets))
            (main curl net 2 (some file) w)
  unfolding main open_socket
  main-Returns file config n failed others w u g parsed has fails found global easy login accepted m
        accepts =
      rw
        (
          parsed,
          has.token_text,
          read_behind_lem allocate token u has.token_IsText,
          has.url,
          read_behind_lem _ (x ∷ s) u has.url_IsText,
        )
        (bind
          (vme_init-Opened curl x s token 1 u g global easy has.url_IsText has.token_IsText login)
          λ h v q.
            let e = opening curl x s token 1 u g in
            let c = q.client in
            let handle : h ≡ some c = q.handle ∙ ap (λ r. if r then none else some c) accepted in
            let q' = subst (λ h'. Opened curl (x ∷ s) token 1 u e h' v) handle q in
            let a = accepts c v q' in
            let g' : Granting v = ap (λ (y : World). y.ration) q.world ∙ g in
            let peer = acknowledging ready (piece p next) in
            let topic : IsTopic c discovery_topic = record {
              version = omega (arith, q.version);
              fits = omega arith;
            } in
            rw
              (
                handle,
                has.port_text,
                init_dpi_inet_client-connected net port failed others peer v g' fails found,
              )
              (bind
                (publish_message_publishes curl c
                  (record v { live = suc v.live; sockets = suc v.sockets }) g' q.valid q.is_client
                  topic p m next a.is_url a.served a.fine a.low)
                λ h' y (d, handle', sent, is_client, valid, world).
                  let live : y.live ≡ suc (suc (suc (2 + u.live))) =
                    omega (
                      arith,
                      ap (λ (z : World). z.live) world,
                      ap (λ (z : World). z.live) q.world,
                    ) in
                  let sockets : y.sockets ≡ suc u.sockets =
                    ap (λ (z : World). z.sockets) world
                    ∙ ap (λ (z : World). suc z.sockets) q.world in
                  rw (handle', vme_teardown_lem d (2 + u.live) y valid is_client.buffer live)
                    (returns (refl, refl, sockets))))
