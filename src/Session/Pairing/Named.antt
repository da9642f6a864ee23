-- ===== src/Session/Pairing/Named.antt =====
-- Which device a RemotePairing tunnel of src/main.rs is for.
use i_usb_bridge.Prelude.{
  ℕ, ◌≡◌, ◌⊎◌, refl, sym, ◌∙◌, not, ◌||◌, Option, none, some, List, [], ◌∷◌, inl, inr, length, All,
  Bool-cases, Option-cases,
}
use i_usb_bridge.Prelude.Text.{Text, text}
use i_usb_bridge.Prelude.Action.{Result, ok, Result-cases, err-ne-ok, ok_value, bind_inv}
use i_usb_bridge.Session.Args.{FilePath, requested_udid, remote_pairing_file_path}
use i_usb_bridge.Session.System.{System, Environment}
use i_usb_bridge.Session.Pairing.{
  Candidate, Service, Discovery, resolved, other_event, disconnected, Remote, is_text, stem_is,
  is_given, equivalent_pairing, search_directory, named_candidates, remote_pairing_candidates,
  belongs_to, find_candidate, connect_candidate, wait_for_service, remote_pairing_transport, usable,
  create_parent, only_candidate,
}

module _ {World : Type 0} (sys : System World) (env : Environment) (remote : Remote World) where
  equivalent_pairing_udid :
      (requested : Text) (entries : List (Text ⊎ FilePath)) (w w' : World) (c : Candidate)
      → equivalent_pairing sys env remote requested entries w ≡ ok (some c) w'
      → c.udid ≡ requested
  unfolding equivalent_pairing
  equivalent_pairing_udid requested [] w w' c h = absurd (cc h)
  equivalent_pairing_udid requested (inl e ∷ later) w w' c h = absurd (cc h)
  equivalent_pairing_udid requested (inr path ∷ later) w w' c h =
      elim (Bool-cases (
        not (is_text (text "plist") (remote.extension path))
        || not (stem_is requested (remote.file_stem path)))) [
          | inl b ↦ equivalent_pairing_udid requested later w w' c (rw (equivalent_pairing, b) at h)
          | inr b ↦ elim (Result-cases (remote.read_from_file path w)) [
            | inr (x, v, f) ↦
                equivalent_pairing_udid requested later v w' c (rw (equivalent_pairing, b, f) at h)
            | inl (p, v, f) ↦
                let k : ◌≡◌ {A = Result World (Option Candidate)}
                    (ok (some (record { udid = requested; path = path; pairing = p })) v)
                    (ok (some c) w') =
                  rw (equivalent_pairing, b, f) at h in
                cc k
          ]
        ]

  search_directory_udid :
      (requested : Text) (path : FilePath) (w w' : World) (c : Candidate)
      → search_directory sys env remote (some requested) path w ≡ ok (some c) w'
      → c.udid ≡ requested
  unfolding search_directory
  search_directory_udid requested path w w' c h =
      elim (Bool-cases (is_given (env.var (text "IPHONE_MIRROR_RP_PAIRING_FILE")))) [
        | inl b ↦ absurd (cc (rw (search_directory, b) at h))
        | inr b ↦ elim (Option-cases (remote.parent path)) [
          | inl n ↦ absurd (cc (rw (search_directory, b, n) at h))
          | inr (directory, p) ↦ elim (Result-cases (remote.read_dir directory w)) [
            | inr (x, v, f) ↦ absurd (cc (rw (search_directory, b, p, f) at h))
            | inl (entries, v, f) ↦
                equivalent_pairing_udid requested entries v w' c
                  (rw (search_directory, b, p, f) at h)
          ]
        ]
      ]

  -- Every candidate for a named device is for that device.
  named_candidates_udid :
      (requested : Text) (w w' : World) (cs : List Candidate)
      → named_candidates sys env remote (some requested) w ≡ ok cs w'
      → All (λ (c : Candidate). c.udid ≡ requested) cs
  unfolding named_candidates
  named_candidates_udid requested w w' cs h =
      let path : FilePath = remote_pairing_file_path env (some requested) in
      elim (Result-cases (remote.read_from_file path w)) [
        | inl (p, v, f) ↦ let k = rw (named_candidates, f) at h in rw (← ok_value k) (refl, tt)
        | inr (x, v, f) ↦
            let (o, v1, e, k) =
              bind_inv (search_directory sys env remote (some requested) path v)
                (only_candidate sys env remote path) w' cs (rw (named_candidates, f) at h) in
            only v v1 o e k
      ]
    where
      only :
          (v v1 : World) (o : Option Candidate)
          → search_directory sys env remote
              (some requested)
              (remote_pairing_file_path env (some requested))
              v
            ≡ ok o v1
          → only_candidate sys env remote (remote_pairing_file_path env (some requested)) o v1
            ≡ ok cs w'
          → All (λ (c : Candidate). c.udid ≡ requested) cs
      only v v1 none e k = absurd (err-ne-ok k)
      only v v1 (some c) e k = rw (← ok_value k) (search_directory_udid requested _ v v1 c e, tt)

  find_candidate_keeps :
      (P : Candidate → Type 0) (service : Service) (count : ℕ) (cs : List Candidate) (c : Candidate)
      → All P cs
      → find_candidate sys env remote service count cs ≡ some c
      → P c
  unfolding find_candidate
  find_candidate_keeps P service count [] c p h = absurd (cc h)
  find_candidate_keeps P service count (d ∷ ds) c (p, q) h =
      elim (Bool-cases (belongs_to sys env remote service count d)) [
        | inl b ↦ let same : d ≡ c = cc (rw (find_candidate, b) at h) in rw (← same) p
        | inr b ↦ find_candidate_keeps P service count ds c q (rw (find_candidate, b) at h)
      ]

  connect_candidate_udid :
      (service : Service) (c : Candidate) (w w' : World) (udid : Text)
      → connect_candidate sys env remote service c w ≡ ok udid w'
      → c.udid ≡ udid
  unfolding connect_candidate
  connect_candidate_udid service c w w' udid h =
      let (address, v1, e1, h1) = bind_inv (usable sys env remote service.address w) _ w' udid h in
      let (p, v2, e2, h2) = bind_inv (remote.connect_rpc address c.pairing v1) _ w' udid h1 in
      let (_, v3, e3, h3) = bind_inv (create_parent sys env remote c.path v2) _ w' udid h2 in
      let (_, v4, e4, h4) = bind_inv (remote.write_to_file c.path p v3) _ w' udid h3 in
      let (_, v5, e5, h5) = bind_inv (remote.open_tunnel address v4) _ w' udid h4 in ok_value h5

  wait_for_service_udid :
      (requested : Text) (cs : List Candidate) (ds : List Discovery) (w w' : World) (udid : Text)
      → All (λ (c : Candidate). c.udid ≡ requested) cs
      → wait_for_service sys env remote cs ds w ≡ ok udid w'
      → udid ≡ requested
  unfolding wait_for_service
  wait_for_service_udid requested cs [] w w' udid p h = absurd (err-ne-ok h)
  wait_for_service_udid requested cs (disconnected e ∷ ds) w w' udid p h = absurd (err-ne-ok h)
  wait_for_service_udid requested cs (other_event ∷ ds) w w' udid p h =
      wait_for_service_udid requested cs ds w w' udid p h
  wait_for_service_udid requested cs (resolved service ∷ ds) w w' udid p h =
      elim (Option-cases (find_candidate sys env remote service (length cs) cs)) [
        | inl n ↦ wait_for_service_udid requested cs ds w w' udid p (rw (wait_for_service, n) at h)
        | inr (c, f) ↦
            sym (connect_candidate_udid service c w w' udid (rw (wait_for_service, f) at h))
            ∙ find_candidate_keeps (λ c. c.udid ≡ requested) service (length cs) cs c p f
      ]

  remote_pairing_candidates_udid :
      (requested : Text) (w w' : World) (cs : List Candidate)
      → requested_udid env.args ≡ some requested
      → remote_pairing_candidates sys env remote w ≡ ok cs w'
      → All (λ (c : Candidate). c.udid ≡ requested) cs
  unfolding remote_pairing_candidates
  remote_pairing_candidates_udid requested w w' cs named h =
      elim (Bool-cases (is_given (env.var (text "IPHONE_MIRROR_RP_PAIRING_FILE")))) [
        | inl b ↦
            named_candidates_udid requested w w' cs (rw (remote_pairing_candidates, b, named) at h)
        | inr b ↦
            named_candidates_udid requested w w' cs (rw (remote_pairing_candidates, b, named) at h)
      ]

  -- If a device was named on the command line, a RemotePairing tunnel that is opened is reported
  -- for exactly that identifier, whatever services mDNS shows and whatever files there are.
  pub remote_pairing_transport_named :
      (requested : Text) (w w' : World) (udid : Text)
      → requested_udid env.args ≡ some requested
      → remote_pairing_transport sys env remote w ≡ ok udid w'
      → udid ≡ requested
  unfolding remote_pairing_transport
  remote_pairing_transport_named requested w w' udid named h =
      let (ds, v, e, h1) = bind_inv (remote.browse w) _ w' udid h in
      let (cs, v1, e1, h2) = bind_inv (remote_pairing_candidates sys env remote v) _ w' udid h1 in
      wait_for_service_udid requested cs ds v1 w' udid
        (remote_pairing_candidates_udid requested v v1 cs named e1) h2
