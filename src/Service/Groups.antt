-- ===== src/Service/Groups.antt =====
-- Messages to a service's name, after `Start`.
use service_framework.Prelude.{
  ℕ, zero, suc, String, refl, sym, ap, Bool, true, false, some, List, [], map, append-nil,
  append_assoc, arith, length, ◌+◌, ◌≡◌, ◌∙◌, ◌∷◌, ◌++◌, string_eq, if◌then◌else◌, nat_eq,
  string_eq,
}
use service_framework.Conn.{IoBuf}
use service_framework.Config.{ServiceConfig}
use service_framework.Service.{
  ServiceManager, by_broad_cast, send_connected, group_send_io_buf, send_io_buf_by_name, lookup,
  start, returned, Sent, tcp_client_group,
}
use service_framework.Service.Entries.{any_throws, created, named, Fits, service_of}
use service_framework.Service.Registry.{start-quiet}

-- The connected ones of the places below a number, in their order.
abbrev pub connected_places : (ℕ → Bool) → ℕ → List ℕ
connected_places connected zero = []
connected_places connected (suc n) =
    connected_places connected n ++ (if connected n then n ∷ [] else [])

-- What is sent when each of the places gets the data.
abbrev pub each_gets : IoBuf → List ℕ → List Sent
each_gets buf places = map (λ k. (k, buf)) places

map-append :
    (buf : IoBuf) (ks ls : List ℕ) → each_gets buf (ks ++ ls) ≡ each_gets buf ks ++ each_gets buf ls
map-append buf [] ls = refl
map-append buf (k ∷ ks) ls = ap (λ l. (k, buf) ∷ l) (map-append buf ks ls)

one_more :
    (connected : ℕ → Bool) (i : ℕ) (buf : IoBuf) (sent : List Sent)
    → each_gets buf (if connected i then i ∷ [] else []) ++ sent
      ≡ (if connected i then (i, buf) ∷ sent else sent)
one_more connected i buf sent = ground arith

send_connected_lem :
    (connected : ℕ → Bool) (i : ℕ) (cs : List ServiceConfig) (buf : IoBuf)
    → each_gets buf (connected_places connected i) ++ send_connected connected i cs buf
      ≡ each_gets buf (connected_places connected (length cs + i))
unfolding send_connected
send_connected_lem connected i [] buf =
    let none_yet : i ≡ 0 + i = omega arith in
    append-nil _ ∙ ap (λ k. each_gets buf (connected_places connected k)) none_yet
send_connected_lem connected i (c ∷ cs) buf =
    let here = if connected i then i ∷ [] else [] in
    let next = send_connected connected (i + 1) cs buf in
    let places = connected_places connected i in
    let one : suc i ≡ i + 1 = omega arith in
    let total : length cs + (i + 1) ≡ length (c ∷ cs) + i = omega arith in
    ap (λ l. each_gets buf places ++ l) (sym (one_more connected i buf next))
    ∙ sym (append_assoc (each_gets buf places) (each_gets buf here) next)
    ∙ ap (λ l. l ++ next) (sym (map-append buf places here))
    ∙ ap (λ k. each_gets buf (connected_places connected k) ++ next) one
    ∙ send_connected_lem connected (i + 1) cs buf
    ∙ ap (λ k. each_gets buf (connected_places connected k)) total

broad_cast_group :
    (m : ServiceManager) (connected : ℕ → Bool) (rand : ℕ → ℕ) (s : String) (d c : ServiceConfig)
    (cs : List ServiceConfig) (buf : IoBuf)
    → lookup m s ≡ some (tcp_client_group d (c ∷ cs))
    → send_io_buf_by_name m connected rand s buf by_broad_cast
      ≡ (true, send_connected connected 0 (c ∷ cs) buf)
unfolding send_io_buf_by_name group_send_io_buf
broad_cast_group m connected rand s d c cs buf h = ground (arith, h)

-- On configurations that fit together (as for `Start`), of which no service throws from its `Start`,
-- for a name whose configurations are those of clients: `Start` returns, and then a broadcast to the
-- name answers true and sends the whole data once to each client of that name that is connected, in
-- their order in the configuration, and to no others.
pub broad_cast-connected :
    (throws : ServiceConfig → Bool) (m : ServiceManager) (connected : ℕ → Bool) (rand : ℕ → ℕ)
    (s : String) (c : ServiceConfig) (cs : List ServiceConfig) (buf : IoBuf)
    → m.services ≡ []
    → any_throws throws (created m.factories m.service_configs) ≡ false
    → Fits [] (created m.factories m.service_configs)
    → named s (created m.factories m.service_configs) ≡ c ∷ cs
    → string_eq.beq c.service_type "tcp_client" ≡ true
    → (m' : ServiceManager) × (start throws m ≡ returned m')
      × (send_io_buf_by_name m' connected rand s buf by_broad_cast
          ≡ (true, map (λ k. (k, buf)) (connected_places connected (length (c ∷ cs)))))
broad_cast-connected throws m connected rand s c cs buf empty calm fits names client =
    let (m', started, found, running) = start-quiet throws m empty calm fits in
    let group : lookup m' s ≡ some (tcp_client_group c (c ∷ cs)) =
      found s ∙ ap service_of names ∙ rw client refl in
    let total : length (c ∷ cs) + 0 ≡ length (c ∷ cs) = omega arith in
    (
      m',
      started,
      broad_cast_group m' connected rand s c c cs buf group
          ∙ ap (λ sent. (true, sent))
              (send_connected_lem connected 0 (c ∷ cs) buf
                ∙ ap (λ n. each_gets buf (connected_places connected n)) total),
    )
