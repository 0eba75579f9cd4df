-- ===== src/Dpi/End.antt =====
-- When `fetch_discovery_msg` of src/vipo/dpi_client.c takes its end mark for one.
use vantiq_sdk_micro.Base.{
  ℕ, suc, ◌+◌, ◌-◌, ◌≤◌, ◌≡◌, refl, ap, ◌∙◌, true, inl, inr, Bool-cases, none, some, [], ◌∷◌, ◌++◌,
  Bytes, arith, ◌==◌, if◌then◌else◌, add_size,
}
use vantiq_sdk_micro.Memory.{World, at_live, ok, Granting, fresh, resize_cells, resize_cells-new}
use vantiq_sdk_micro.Memory.Returns.{Returns, returns, bind}
use vantiq_sdk_micro.Buf.{Vmebuf}
use vantiq_sdk_micro.Buf.Growth.{Holds, ensure_size-Allocated}
use vantiq_sdk_micro.Dpi.{
  Inbox, piece, ready, prot_eot, inbox_size, is_eot, conclude, on_activity, fetch_discovery_msg,
}
use vantiq_sdk_micro.Dpi.Fetch.{
  received, len_zero, received-Holds, acknowledge_lem, receive_all_lem,
}

four_cells :
    (junk : ℕ → ℕ) (n : ℕ)
    → 4 ≤ n
    → (t : Bytes) × (fresh junk 0 n ≡ junk 0 ∷ junk 1 ∷ junk 2 ∷ junk 3 ∷ t)
four_cells junk n h =
    let e : n ≡ suc (suc (suc (suc (n - 4)))) = omega arith in
    (fresh junk 4 (n - 4), ap (fresh junk 0) e)

is_eot-received :
    (junk : ℕ → ℕ) {b : Vmebuf}
    → b.cells ≡ some (resize_cells junk [] b.limit)
    → b.len ≡ 0
    → 4 ≤ b.limit
    → is_eot (received b prot_eot) prot_eot ≡ (junk 3 == 0)
is_eot-received junk {b} e empty room =
    let (t, cells) = four_cells junk b.limit room in
    rw (e, empty, resize_cells-new junk b.limit, cells) (ground arith)

-- The buffer is kept where the mark is recognised.
conclude-prot_eot :
    (junk : ℕ → ℕ) {b : Vmebuf} (n : ℕ) (w : World)
    → Granting w
    → Holds [] b
    → b.cells ≡ some (resize_cells junk [] b.limit)
    → 512 ≤ b.limit
    → w.live ≡ suc (suc n)
    → conclude true (some prot_eot) (received b prot_eot) w ≡ (
        if junk 3 == 0
        then ok none (at_live w (suc (suc n)))
        else ok (some (prot_eot ++ 0 ∷ [])) (at_live w (suc n)))
unfolding conclude
conclude-prot_eot junk {b} n w g h e room live =
    let empty = len_zero h in
    let no_wrap : add_size b.len 3 ≡ 3 = omega (arith, empty) in
    let mark = is_eot-received junk e empty (omega arith) in
    elim (Bool-cases (junk 3 == 0)) [
      | inl found ↦ rw (mark ∙ found, found) (ap (λ k. ok none (at_live w k)) live)
      | inr other ↦
          rw (mark ∙ other, other, no_wrap)
            (acknowledge_lem n w g refl (received-Holds prot_eot h (omega arith)) (omega arith)
              live)
    ]

-- If every allocation is granted, the socket is ready and takes the acknowledgement, and the end
-- mark EOT arrives in one piece, then fetch_discovery_msg returns NULL exactly if the fourth
-- byte of the new block happens to be 0, and keeps its buffer then; otherwise it returns the
-- mark as a message.
pub fetch_discovery_msg-prot_eot :
    (next : Inbox) (w : World)
    → Granting w
    → Returns
        (λ r u.
          (r ≡ (if w.junk 3 == 0 then none else some (prot_eot ++ 0 ∷ [])))
          × (u ≡ at_live w (if w.junk 3 == 0 then suc (suc w.live) else suc w.live)))
        (fetch_discovery_msg
          (record { activity = ready; inbox = piece prot_eot next; takes_ack = true })
          w)
unfolding fetch_discovery_msg on_activity
fetch_discovery_msg-prot_eot next w g = bind (ensure_size-Allocated 512 w g (omega arith)) λ b u q.
    let room : 512 ≤ b.limit = q.room in
    let g' : Granting u = ap (λ (v : World). v.ration) q.two_blocks ∙ g in
    let run = receive_all_lem (3 + inbox_size next) prot_eot next u q.holds (omega arith) in
    let end =
      conclude-prot_eot w.junk w.live u g' q.holds q.fresh_cells room
        (ap (λ (v : World). v.live) q.two_blocks) in
    elim (Bool-cases (w.junk 3 == 0)) [
      | inl found ↦
          rw (run, end, found) (returns (refl, ap (λ v. at_live v (suc (suc w.live))) q.two_blocks))
      | inr other ↦
          rw (run, end, other) (returns (refl, ap (λ v. at_live v (suc w.live)) q.two_blocks))
    ]
