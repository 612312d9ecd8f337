-- ===== src/Services/Proxies.antt =====
-- services/proxy_service.py and repositories/proxy_repo.py: which terminal uses which proxy. The
-- endpoint of a proxy is its address with its port, so that equal endpoints are equal proxies.
use mt5_connector.Common.{
  Bool, List, Option, String, [], any, elem, find, if◌then◌else◌, nat_eq, none, not, some,
  string_eq, ℕ, ◌&&◌, ◌++◌, ◌==◌, ◌∷◌,
}
use mt5_connector.Common.Dict.{Dict, erase, insert, lookup}
use mt5_connector.Pool.Worker.{Proxy}
use mt5_connector.Services.Store.{key_eq}

abbrev pub same_proxy : Proxy → Proxy → Bool
same_proxy p q = p.address == q.address && p.port == q.port

-- `candidate.endpoint in taken`
abbrev pub is_taken : List Proxy → Proxy → Bool
is_taken used p = any (same_proxy p) used

-- A row of `/ipauthorization/`, and what the account of the proxy service holds.
pub record Authorization : Type 0 where
  pub id : ℕ
  pub ip_address : String

-- `TerminalProxyRepository.set`: `all` is the dict itself
unfoldable pub set_proxy : String → Option Proxy → Dict String Proxy → Dict String Proxy
set_proxy path none rows = erase path rows
set_proxy path (some proxy) rows = insert path proxy rows

-- `_ensure_ip_authorized`: the authorizations that it leaves; the service numbers the new one.
unfoldable pub ensure_ip_authorized : String → ℕ → List Authorization → List Authorization
ensure_ip_authorized ip fresh existing =
    if any (λ row. row.ip_address == ip) existing
    then existing
    else record { id = fresh; ip_address = ip } ∷ []

-- `list_proxies`: the valid proxies of all pages, a page being its rows with their `valid`
abbrev pub valid_rows : List (Proxy × Bool) → List Proxy
valid_rows [] = []
valid_rows ((p, valid) ∷ rows) = let rest = valid_rows rows in if valid then p ∷ rest else rest

unfoldable pub list_proxies : List (List (Proxy × Bool)) → List Proxy
list_proxies [] = []
list_proxies (page ∷ pages) = valid_rows page ++ list_proxies pages

-- The state of the loops of `load`.
pub record Loading : Type 0 where
  pub result : Dict String (Option Proxy)
  pub taken : List Proxy
  pub rows : Dict String Proxy

abbrev pub is_kept : List Proxy → List Proxy → Proxy → Bool
is_kept available used current = is_taken available current && not (is_taken used current)

-- A turn of the first loop: the terminal keeps a proxy that is valid and not yet taken.
abbrev pub keep_proxy : List Proxy → String → Option Proxy → Loading → Loading
keep_proxy available path none l = l
keep_proxy available path (some current) l =
    if is_kept available l.taken current
    then record l { result = insert path (some current) l.result; taken = current ∷ l.taken }
    else l

abbrev pub keep_proxies : List Proxy → Dict String Proxy → List String → Loading → Loading
keep_proxies available assigned [] l = l
keep_proxies available assigned (path ∷ paths) l =
    keep_proxies available assigned paths (keep_proxy available path (lookup path assigned) l)

abbrev pub next_proxy : List Proxy → List Proxy → Option Proxy
next_proxy available used = find (λ p. not (is_taken used p)) available

abbrev pub take_proxy : Option Proxy → List Proxy → List Proxy
take_proxy none used = used
take_proxy (some p) used = p ∷ used

-- A turn of the second loop: a terminal without an entry gets the first proxy that is free.
abbrev pub give_proxy : String → Option Proxy → Loading → Loading
give_proxy path proxy l = record {
  result = insert path proxy l.result;
  taken = take_proxy proxy l.taken;
  rows = set_proxy path proxy l.rows;
}

abbrev pub assign_proxy : List Proxy → String → Option (Option Proxy) → Loading → Loading
assign_proxy available path (some _) l = l
assign_proxy available path none l = give_proxy path (next_proxy available l.taken) l

abbrev pub assign_proxies : List Proxy → List String → Loading → Loading
assign_proxies available [] l = l
assign_proxies available (path ∷ paths) l =
    assign_proxies available paths (assign_proxy available path (lookup path l.result) l)

-- The rows of the paths that are no terminal any more go.
abbrev pub drop_unknown : List String → Dict String Proxy → Dict String Proxy
drop_unknown paths [] = []
drop_unknown paths ((path, p) ∷ rows) =
    let rest = drop_unknown paths rows in if elem path paths then (path, p) ∷ rest else rest

abbrev pub new_loading : Dict String Proxy → Loading
new_loading assigned = record { result = []; taken = []; rows = assigned }

abbrev pub loaded : List Proxy → List String → Dict String Proxy → Loading
loaded available paths assigned =
    assign_proxies available paths (keep_proxies available assigned paths (new_loading assigned))

abbrev pub stored_proxies : Dict String Proxy → List String → Dict String (Option Proxy)
stored_proxies assigned [] = []
stored_proxies assigned (path ∷ paths) =
    insert path (lookup path assigned) (stored_proxies assigned paths)

-- `load`: the proxies of the terminals and the rows; `available` is `none` when the service cannot
-- be reached.
unfoldable pub load_proxies :
    Option (List Proxy)
    → List String
    → Dict String Proxy
    → Dict String (Option Proxy) × Dict String Proxy
unfolding set_proxy
load_proxies none paths assigned = (stored_proxies assigned paths, assigned)
load_proxies (some available) paths assigned =
    let l = loaded available paths assigned in (l.result, drop_unknown paths l.rows)

-- The proxies of the other terminals, and the dead one.
abbrev pub taken_by_others : String → Option Proxy → Dict String Proxy → List Proxy
taken_by_others path dead [] = take_proxy dead []
taken_by_others path dead ((other, p) ∷ rows) =
    let rest = taken_by_others path dead rows in if other == path then rest else p ∷ rest

-- `rotate`: it chooses by the rows that it has read, `assigned`, then waits for the service, and
-- writes to the rows as they are after that, `rows`, which other rotations may have changed.
unfoldable pub rotate :
    String
    → Option Proxy
    → Option (List Proxy)
    → Dict String Proxy
    → Dict String Proxy
    → Option Proxy × Dict String Proxy
unfolding set_proxy
rotate path dead none assigned rows = (none, set_proxy path none rows)
rotate path dead (some available) assigned rows =
    let proxy = next_proxy available (taken_by_others path dead assigned) in
    (proxy, set_proxy path proxy rows)
