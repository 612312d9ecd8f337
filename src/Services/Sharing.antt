-- ===== src/Services/Sharing.antt =====
-- No two terminals share a proxy.
use mathlib.Core.Bool.{false≢true}
use mathlib.Core.List.{Mem}
use mt5_connector.Common.{
  Bool-cases, List, Option, String, [], arith, false, if-cases, inl, inr, nat_eq, none, not, refl,
  some, string_eq, subst, sym, true, ◌==◌, ◌∙◌, ◌∷◌, ◌≡◌, ◌≢◌,
}
use mt5_connector.Common.Dict.{
  Dict, beq_ne, beq_refl, insert, lookup, lookup-insert_inv, lookup-insert_self, lookup-insert_ne,
}
use mt5_connector.Common.Search.{find-some}
use mt5_connector.Pool.Worker.{Proxy}
use mt5_connector.Services.Proxies.{
  Loading, assign_proxies, assign_proxy, give_proxy, is_kept, is_taken, keep_proxies, keep_proxy,
  load_proxies, new_loading, next_proxy, rotate, same_proxy, set_proxy, taken_by_others,
}
use mt5_connector.Services.Store.{key_eq}

same_proxy_eq : (p q : Proxy) → same_proxy p q ≡ true → p ≡ q
same_proxy_eq p q h =
    both (ground (arith, string_eq.equal_iff p.address q.address))
      (ground (arith, nat_eq.equal_iff p.port q.port))
  where
    both : p.address ≡ q.address → p.port ≡ q.port → p ≡ q
    both e f i = record { address = e i; port = f i }

same_proxy_refl : (p : Proxy) → same_proxy p p ≡ true
same_proxy_refl p = ground (arith, beq_refl p.address, beq_refl p.port)

-- The proxies of the result are taken, and two terminals with the same one are the same terminal.
abbrev IsApart : Loading → Type 0
IsApart l =
    ((path : String) (p : Proxy) → lookup path l.result ≡ some (some p) → is_taken l.taken p ≡ true)
    × ((path other : String) (p : Proxy)
        → lookup path l.result ≡ some (some p)
        → lookup other l.result ≡ some (some p)
        → path ≡ other)

-- A terminal gets a proxy that is free.
give_free-IsApart :
    (path : String) (c : Proxy) (l : Loading) (rows : Dict String Proxy)
    → is_taken l.taken c ≡ false
    → IsApart l
    → IsApart (record { result = insert path (some c) l.result; taken = c ∷ l.taken; rows = rows })
give_free-IsApart path c l rows free apart =
    let clash : (other : String) (p : Proxy)
        → some c ≡ some p
        → lookup other l.result ≡ some (some p)
        → ⊥ =
      λ other p e found. false≢true (
        sym free
        ∙ subst (λ o. elim o [ none ↦ true | some q ↦ is_taken l.taken q ] ≡ true) (sym e)
            (apart.0 other p found)) in
    (
      λ other p found. elim (lookup-insert_inv other path (some c) (some p) l.result found) [
        | inl (_, e) ↦ ground (arith, same_proxy_refl p)
        | inr (_, old) ↦ ground (arith, apart.0 other p old)
      ],
      λ one other p found found'.
          elim (lookup-insert_inv one path (some c) (some p) l.result found) [
            | inl (at_path, e) ↦
                elim (lookup-insert_inv other path (some c) (some p) l.result found') [
                  | inl (too, _) ↦ at_path ∙ sym too
                  | inr (_, old) ↦ absurd (clash other p e old)
                ]
            | inr (_, old) ↦ elim (lookup-insert_inv other path (some c) (some p) l.result found') [
              | inl (_, e) ↦ absurd (clash one p e old)
              | inr (_, old') ↦ apart.1 one other p old old'
            ]
          ],
    )

give_none-IsApart :
    (path : String) (l : Loading) (rows : Dict String Proxy)
    → IsApart l
    → IsApart (record { result = insert path none l.result; taken = l.taken; rows = rows })
give_none-IsApart path l rows apart =
    let old : (other : String) (p : Proxy)
        → lookup other (insert path none l.result) ≡ some (some p)
        → lookup other l.result ≡ some (some p) =
      λ other p found. elim (lookup-insert_inv other path none (some p) l.result found) [
        | inl (_, e) ↦ absurd (ground (arith, e))
        | inr (_, before) ↦ before
      ] in
    (
      λ other p found. apart.0 other p (old other p found),
      λ one other p found found'. apart.1 one other p (old one p found) (old other p found'),
    )

keep_proxy-IsApart :
    (available : List Proxy) (path : String) (current : Option Proxy) (l : Loading)
    → IsApart l
    → IsApart (keep_proxy available path current l)
keep_proxy-IsApart available path none l apart = apart
keep_proxy-IsApart available path (some c) l apart =
    if-cases IsApart (is_kept available l.taken c)
      (record l { result = insert path (some c) l.result; taken = c ∷ l.taken }) l
      (λ hit. give_free-IsApart path c l l.rows (ground arith) apart) (λ miss. apart)

keep_proxies-IsApart :
    (available : List Proxy) (assigned : Dict String Proxy) (paths : List String) (l : Loading)
    → IsApart l
    → IsApart (keep_proxies available assigned paths l)
keep_proxies-IsApart available assigned [] l apart = apart
keep_proxies-IsApart available assigned (path ∷ paths) l apart =
    keep_proxies-IsApart available assigned paths
      (keep_proxy available path (lookup path assigned) l)
      (keep_proxy-IsApart available path (lookup path assigned) l apart)

next_proxy-free :
    (available used : List Proxy) (p : Proxy)
    → next_proxy available used ≡ some p
    → is_taken used p ≡ false
next_proxy-free available used p e =
    ground (arith, find-some (λ q. not (is_taken used q)) available p e)

give_proxy-IsApart :
    (path : String) (proxy : Option Proxy) (l : Loading)
    → ((p : Proxy) → proxy ≡ some p → is_taken l.taken p ≡ false)
    → IsApart l
    → IsApart (give_proxy path proxy l)
give_proxy-IsApart path none l free apart =
    give_none-IsApart path l (set_proxy path none l.rows) apart
give_proxy-IsApart path (some p) l free apart =
    give_free-IsApart path p l (set_proxy path (some p) l.rows) (free p refl) apart

assign_proxy-IsApart :
    (available : List Proxy) (path : String) (known : Option (Option Proxy)) (l : Loading)
    → IsApart l
    → IsApart (assign_proxy available path known l)
assign_proxy-IsApart available path (some _) l apart = apart
assign_proxy-IsApart available path none l apart =
    give_proxy-IsApart path (next_proxy available l.taken) l (next_proxy-free available l.taken)
      apart

assign_proxies-IsApart :
    (available : List Proxy) (paths : List String) (l : Loading)
    → IsApart l
    → IsApart (assign_proxies available paths l)
assign_proxies-IsApart available [] l apart = apart
assign_proxies-IsApart available (path ∷ paths) l apart =
    assign_proxies-IsApart available paths (assign_proxy available path (lookup path l.result) l)
      (assign_proxy-IsApart available path (lookup path l.result) l apart)

-- When the proxy service answers, no two terminals are given the same proxy, whatever the rows held
-- and however often it lists a proxy.
pub load_proxies-apart :
    (available : List Proxy) (paths : List String) (assigned : Dict String Proxy)
    (path other : String) (p : Proxy)
    → lookup path (load_proxies (some available) paths assigned).0 ≡ some (some p)
    → lookup other (load_proxies (some available) paths assigned).0 ≡ some (some p)
    → path ≡ other
unfolding load_proxies
load_proxies-apart available paths assigned path other p =
    (assign_proxies-IsApart available paths
        (keep_proxies available assigned paths (new_loading assigned))
        (keep_proxies-IsApart available assigned paths (new_loading assigned)
          (λ q r e. absurd (ground arith), λ q r s e. absurd (ground arith)))).1
      path other p

taken_by_others-elsewhere :
    (path other : String) (dead : Option Proxy) (rows : Dict String Proxy) (p r : Proxy)
    → other ≢ path
    → lookup other rows ≡ some r
    → is_taken (taken_by_others path dead rows) p ≡ false
    → p ≢ r
taken_by_others-elsewhere path other dead [] p r ne e free = absurd (ground arith)
taken_by_others-elsewhere path other dead ((k, q) ∷ rows) p r ne e free =
    elim (Bool-cases (other == k)) [
      | inl here ↦ λ same.
          let row : q ≡ r = ground arith in
          let own : same_proxy p q ≡ true =
            subst (λ x. same_proxy p x ≡ true) (same ∙ sym row) (same_proxy_refl p) in
          let elsewhere : (k == path) ≡ false =
            subst (λ j. (j == path) ≡ false) ((string_eq.equal_iff other k).0 here)
              (beq_ne other path ne) in
          absurd (ground (arith, own, elsewhere))
      | inr later ↦
          taken_by_others-elsewhere path other dead rows p r ne (ground arith) (ground arith)
    ]

taken_by_others-dead :
    (path : String) (dead p : Proxy) (rows : Dict String Proxy)
    → is_taken (taken_by_others path (some dead) rows) p ≡ false
    → p ≢ dead
taken_by_others-dead path dead p [] free same =
    absurd (ground (arith, subst (λ q. same_proxy p q ≡ true) same (same_proxy_refl p)))
taken_by_others-dead path dead p ((k, q) ∷ rows) free same =
    taken_by_others-dead path dead p rows (ground arith) same

-- When a rotation finds a proxy, it is one that the service lists, it is neither the dead one, where
-- there is one, nor that of another terminal in the rows that the rotation has read before it waits
-- for the service, and the row of the terminal then holds it. The rows of the other terminals stay
-- as they are when it writes.
pub rotate_fresh :
    (path : String) (dead : Option Proxy) (p : Proxy) (available : List Proxy)
    (assigned rows : Dict String Proxy)
    → (rotate path dead (some available) assigned rows).0 ≡ some p
    → Mem p available
      × ((d : Proxy) → dead ≡ some d → p ≢ d)
      × ((other : String) (r : Proxy) → other ≢ path → lookup other assigned ≡ some r → p ≢ r)
      × (lookup path (rotate path dead (some available) assigned rows).1 ≡ some p)
      × ((other : String)
          → other ≢ path
          → lookup other (rotate path dead (some available) assigned rows).1 ≡ lookup other rows)
unfolding rotate set_proxy
rotate_fresh path dead p available assigned rows e =
    let used = taken_by_others path dead assigned in
    let free = next_proxy-free available used p e in
    (
      (find-some (λ q. not (is_taken used q)) available p e).1,
      λ d given.
          taken_by_others-dead path d p assigned
            (subst (λ o. is_taken (taken_by_others path o assigned) p ≡ false) given free),
      λ other r ne found. taken_by_others-elsewhere path other dead assigned p r ne found free,
      subst (λ o. lookup path (set_proxy path o rows) ≡ some p) (sym e)
          (lookup-insert_self path p rows),
      λ other ne.
          subst (λ o. lookup other (set_proxy path o rows) ≡ lookup other rows) (sym e)
            (lookup-insert_ne other path p rows ne),
    )
