-- ===== src/Main/Clients.antt =====
-- Whom the replies go to, when more than one client asks.
use odr.Prelude.{ℕ, ◌≡◌, ◌≢◌, refl, ap, sym, subst, List, [], ◌∷◌, ◌++◌, some, All}
use odr.Structs.{OdrReq, Out}
use odr.Platform.{Platform}
use odr.Link.Sent.{Carries}
use odr.Node.{Node}
use odr.Odr.Cases.{Ensures, Ensures-both, Ensures-imp}
use odr.Odr.Emits.{anything}
use odr.Odr.Locals.{SameLocals, process_pack-SameLocals}
use odr.Odr.Spread.{process_pack-sent}
use odr.Odr.{process_pack}
use odr.Main.{FrameIn, Round, running, handle_request, loop}
use odr.Main.Asks.{handle_request-client, handle_request-sent}
use odr.Main.Induction.{AsksFrom, Leaves, Fits-All, loop-Leaves}

module _ (p : Platform) (old : List ℕ) (base : List Out) where
  abbrev Other : List ℕ → Type 0
  Other addr = addr ≢ old

  -- The messages since those of `base`, none of them to `old`.
  abbrev Forgets : List Out → Type 0
  Forgets s = (new : List Out) × (s ≡ new ++ base) × All (Carries (λ k. Unit) Other) new

  -- The client is another one, too.
  abbrev Forgotten : Node → Type 0
  Forgotten n = Other n.al_client_addr × Forgets n.sent

  closed : (o : Out) (s : List Out) → Carries (λ k. Unit) Other o → Forgets s → Forgets (o ∷ s)
  closed o s q (new, e, others) = (o ∷ new, ap (◌∷◌ o) e, (q, others))

  process_pack-Forgotten :
      (f : FrameIn) (n : Node)
      → Forgotten n
      → Ensures Forgotten (process_pack p f.packet f.h_source f.sll_ifindex n)
  process_pack-Forgotten f n (q, h) =
      let o = process_pack p f.packet f.h_source f.sll_ifindex n in
      Ensures-both (λ m. Other m.al_client_addr) (λ m. Forgets m.sent) o
        (Ensures-imp (SameLocals n) (λ m. Other m.al_client_addr) o
          (λ m s. subst Other (sym s.client) q)
          (process_pack-SameLocals p f.packet f.h_source f.sll_ifindex n))
        (process_pack-sent p (λ k. Unit) Other Forgets closed f.packet f.h_source f.sll_ifindex n
          (λ r. anything f.packet _) q h)

  handle_request-Forgotten :
      (addr : List ℕ) (r : OdrReq) (n m : Node)
      → Other addr
      → handle_request p addr r n ≡ some m
      → Forgets n.sent
      → Forgotten m
  handle_request-Forgotten addr r n m q e h = (
    subst Other (sym (handle_request-client p addr r n m e)) q,
    handle_request-sent p (λ k. Unit) Other Forgets closed addr r n tt tt h m e,
  )

-- Once a request of another client was handled, nothing is sent to a former client until it asks
-- again, whatever frames come and whichever request they answer: the messages are those from
-- before the request and later ones, none of which is to the former client. The rounds after the
-- request hold none of the former client, and the loop went on.
pub overtaken :
    (p : Platform) (old new : List ℕ) (r : OdrReq) (n m u : Node) (rs : List Round)
    → old ≢ new
    → handle_request p new r n ≡ some m
    → All (AsksFrom (λ addr. addr ≢ old)) rs
    → loop p rs m ≡ running u
    → (since : List Out) × (u.sent ≡ since ++ n.sent)
      × All (Carries (λ k. Unit) (λ addr. addr ≢ old)) since
overtaken p old new r n m u rs ne asked others go =
    (subst (Leaves (Forgotten p old n.sent)) go (
      loop-Leaves p (Forgotten p old n.sent) (λ f. Unit) (λ addr. addr ≢ old)
        (λ f v q w. process_pack-Forgotten p old n.sent f v w)
        (λ addr q v w h e s. handle_request-Forgotten p old n.sent addr q v w h e s.1) rs m
        (Fits-All rs) others
        (handle_request-Forgotten p old n.sent new r n m (λ q. ne (sym q)) asked ([], refl, tt)))).1
