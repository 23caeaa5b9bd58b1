-- ===== src/Services/Apt/Names.antt =====
-- Which name the access to the applet service stands at.
use ctru_rt.Base.{
  ℕ, zero, suc, ◌+◌, ◌<◌, ◌≤◌, Bool, List, [], ◌∷◌, get_elem?, drop, length, length-drop, some, ◌≡◌,
  refl, ap, ◌∙◌, sym, arith, ok,
}
use ctru_rt.Machine.{Machine, pure, bind-ok}
use ctru_rt.Srv.{get_service_handle, get_service_handle_alternatives}
use ctru_rt.Srv.Laws.{alternatives_lem}
use ctru_rt.Services.Apt.{AptAccess, aquire, matched, apt_service_names}

suc_add : (n k : ℕ) → suc (n + k) ≡ suc n + k
suc_add n k = omega arith

get_elem?-drop {ℓ} :
    {A : Type ℓ} (n k : ℕ) (xs : List A) → get_elem? (drop n xs) k ≡ get_elem? xs (n + k)
get_elem?-drop zero k xs = ap (get_elem? xs) (omega arith)
get_elem?-drop (suc n) k [] = refl
get_elem?-drop (suc n) k (x ∷ xs) = get_elem?-drop n k xs ∙ ap (get_elem? (x ∷ xs)) (suc_add n k)

aquire-ok :
    {W : Type 0} (m : Machine W) (debug : Bool) (access : AptAccess) (w w' : W) {r : ℕ × AptAccess}
    → access.service_name_index < 3
    → aquire m debug access w ≡ (ok r, w')
    → (found : ℕ × ℕ) × (get_service_handle_alternatives m debug access.srv
          (drop access.service_name_index apt_service_names)
          w
        ≡ (ok found, w'))
      × (r ≡ matched m debug access found)
unfolding aquire apt_service_names
aquire-ok m debug access w w' {r = r} i e =
    let (found, v, a, b) =
      bind-ok {B = ℕ × AptAccess}
        (get_service_handle_alternatives m debug access.srv
          (drop access.service_name_index apt_service_names))
        (λ (found : ℕ × ℕ). pure (matched m debug access found)) w {b = r} {w'' = w'}
        (ground (arith, i, e)) in
    (found, a ∙ ap (λ u. (ok found, u)) (ground (arith, b)), ground (arith, b))

-- Where an access at one of the three names is aquired, it stands at one of them again, not before
-- the one it stood at, and the handle is what the service manager gave for the name it stands at.
pub aquire_lem :
    {W : Type 0} (m : Machine W) (debug : Bool) (access access' : AptAccess) (h : ℕ) (w w' : W)
    → access.service_name_index < 3
    → aquire m debug access w ≡ (ok (h, access'), w')
    → (access.service_name_index ≤ access'.service_name_index)
      × (access'.service_name_index < 3)
      × (access'.srv ≡ access.srv)
      × (name : List ℕ) × (v : W) × (get_elem? apt_service_names access'.service_name_index
          ≡ some name)
      × (get_service_handle m debug access'.srv name v ≡ (ok h, w'))
unfolding matched apt_service_names
aquire_lem m debug access access' h w w' i e =
    let ((g, k), a, b) = aquire-ok m debug access w w' {r = (h, access')} i e in
    let (inside, name, u, at, from) =
      alternatives_lem m debug access.srv (drop access.service_name_index apt_service_names) w w' g
        k a in
    let place : access'.service_name_index ≡ access.service_name_index + k =
      ap (λ (r : ℕ × AptAccess). r.1.service_name_index) b in
    let bound : k < length (drop access.service_name_index apt_service_names) = inside in
    let end_ = length-drop access.service_name_index apt_service_names in
    let same : access'.srv ≡ access.srv = ap (λ (r : ℕ × AptAccess). r.1.srv) b in
    (
      omega (arith, place),
      omega (arith, place, bound, end_, i),
      same,
      name,
      u,
      ap (get_elem? apt_service_names) place
          ∙ sym (get_elem?-drop access.service_name_index k apt_service_names)
          ∙ at,
      ap (λ srv. get_service_handle m debug srv name u) same
          ∙ from
          ∙ ap (λ n. (ok n, w')) (sym (ap (λ (r : ℕ × AptAccess). r.0) b)),
    )
