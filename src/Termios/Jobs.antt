-- ===== src/Termios/Jobs.antt =====
-- The jobs of src/unix/unix_c/unix_tcgetattr_job.c and unix_tcsetattr_job.c, which convert a terminal's
-- settings by src/unix/unix_c/unix_termios_conversion.c.
use mathlib.Core.Bool.{false≢true}
use lwt.Base.{
  ℕ, Bool, true, false, List, Option, none, some, Bool-cases, ℤ, pos, negsuc, minus_one,
  is_negative, length, replicate, if◌then◌else◌, ◌≡◌, refl, sym, ap, ◌∙◌, subst, inl, inr,
  length-replicate, unix_error, Outcome, returned, raised, fault,
}
use lwt.Termios.{
  Field, Entry, Termios, LibC, Decoded, decoded, refused, outside, encode_terminal_status,
  decode_terminal_status,
}
use lwt.Termios.Bits.{Word}
use lwt.Termios.Frame.{SpeedLaws}
use lwt.Termios.Written.{DistinctSpeeds}
use lwt.Termios.Convert.{HasWidth}
use lwt.Termios.RoundTrip.{Independent, AllFit, normals, decode-encode}

module _ (L : LibC) (table : List (ℕ × ℕ)) (entries : List Entry) where
  open L use {R, einval}

  -- A terminal device in a state `D`: the two system calls, with their result and the errno behind
  -- them, and the errno that a failing `cf…speed` leaves.
  pub record Device : Type 1 where
    pub D : Type 0
    pub tcgetattr : (fd : ℕ) → D → (ℤ × ℕ) × Termios R
    pub tcsetattr : (fd when : ℕ) → Termios R → D → (ℤ × ℕ) × D
    pub speed_errno : ℕ

  module _ (V : Device) where
    open V use {D, tcgetattr, tcsetattr, speed_errno}

    pub record GetJob : Type 0 where
      pub fd : ℕ
      pub termios : Termios R
      pub result : ℤ
      pub error_code : ℕ

    unfoldable pub worker_tcgetattr : GetJob → D → GetJob
    worker_tcgetattr job d =
        let (a, t) = tcgetattr job.fd d in
        record job { termios = t; result = a.0; error_code = a.1 }

    -- `nothing` is the unit with which `caml_alloc_tuple` fills the new tuple.
    unfoldable pub result_tcgetattr : GetJob → Outcome (List ℤ)
    result_tcgetattr job =
        if is_negative job.result
        then raised (unix_error job.error_code "tcgetattr" "")
        else (elim (encode_terminal_status L table entries job.termios
            (replicate (length entries) (pos 0))) [ none ↦ fault | some values ↦ returned values ])

    pub record SetJob : Type 0 where
      pub fd : ℕ
      pub when : ℕ
      pub termios : List ℤ
      pub result : ℤ
      pub error_code : ℕ

    -- The `errno` that `decode_terminal_status` leaves with its result.
    abbrev decode_errno : ℤ → ℕ
    decode_errno (pos n) = einval
    decode_errno (negsuc n) = speed_errno

    -- `none` is an access outside an array.
    unfoldable pub set_decoded : SetJob → Decoded L table → D → Option (SetJob × D)
    set_decoded job (decoded t) d =
        let (a, d') = tcsetattr job.fd job.when t d in
        some (record job { result = a.0; error_code = a.1 }, d')
    set_decoded job (refused r t) d =
        some (record job { result = minus_one; error_code = decode_errno r }, d)
    set_decoded job outside d = none

    unfoldable pub worker_tcsetattr : SetJob → D → Option (SetJob × D)
    worker_tcsetattr job d =
        let (a, t) = tcgetattr job.fd d in
        if is_negative a.0
        then some (record job { result = a.0; error_code = a.1 }, d)
        else set_decoded job (decode_terminal_status L table entries t job.termios) d

    unfoldable pub result_tcsetattr : SetJob → Outcome (Unit {0})
    result_tcsetattr job =
        if is_negative job.result
        then raised (unix_error job.error_code "tcsetattr" "")
        else returned tt

    abbrev failed_set : Option (SetJob × D) → Bool
    failed_set none = true
    failed_set (some (job, d)) = is_negative job.result

    abbrev state_after : D → Option (SetJob × D) → D
    state_after d none = d
    state_after d (some (job, d')) = d'

    returned-result :
        (job : SetJob) → result_tcsetattr job ≡ returned tt → is_negative job.result ≡ false
    unfolding result_tcsetattr
    returned-result job e = elim (Bool-cases (is_negative job.result)) [
      | inl bad ↦ absurd (cc (rw bad at e))
      | inr good ↦ good
    ]

    encoded-result :
        (job : GetJob) (values : List ℤ)
        → is_negative job.result ≡ false
        → encode_terminal_status L table entries job.termios (replicate (length entries) (pos 0))
          ≡ some values
        → result_tcgetattr job ≡ returned values
    unfolding result_tcgetattr
    encoded-result job values good e = rw good (rw e refl)

    module _ (sb : Field → Word) (laws : SpeedLaws L sb) (width : ℕ)
        (distinct : DistinctSpeeds table) where
      -- What is relied on: a device gives the settings that it took.
      abbrev pub Keeps : Type 0
      Keeps =
          (fd when : ℕ) (t : Termios R) (d : D)
          → is_negative (tcsetattr fd when t d).0.0 ≡ false
          → (is_negative (tcgetattr fd (tcsetattr fd when t d).1).0.0 ≡ false)
            × ((tcgetattr fd (tcsetattr fd when t d).1).1 ≡ t)

      set_decoded-get :
          (job done : SetJob) (get : GetJob) (d d' : D) (t : Termios R)
          → Keeps
          → HasWidth width t
          → Independent sb entries job.termios
          → AllFit width entries
          → get.fd ≡ job.fd
          → (r : Decoded L table) → decode_terminal_status L table entries t job.termios ≡ r
          → set_decoded job r d ≡ some (done, d')
          → result_tcsetattr done ≡ returned tt
          → result_tcgetattr (worker_tcgetattr get d') ≡ returned (normals entries job.termios)
      unfolding set_decoded
      set_decoded-get job done get d d' t keeps wide apart fit same (refused r t') e s ok =
          absurd (false≢true (sym (returned-result done ok) ∙ sym (ap failed_set s)))
      set_decoded-get job done get d d' t keeps wide apart fit same outside e s ok = absurd (cc s)
      set_decoded-get job done get d d' t keeps wide apart fit same (decoded t') e s ok =
          let law = keeps job.fd job.when t' d (ap failed_set s ∙ returned-result done ok) in
          let law' =
            subst
              (λ k.
                (is_negative (tcgetattr k (tcsetattr job.fd job.when t' d).1).0.0 ≡ false)
                × ((tcgetattr k (tcsetattr job.fd job.when t' d).1).1 ≡ t'))
              (sym same) law in
          let now =
            subst
              (λ k. (is_negative (tcgetattr get.fd k).0.0 ≡ false) × ((tcgetattr get.fd k).1 ≡ t'))
              (ap (state_after d) s) law' in
          unfold worker_tcgetattr in
          (encoded-result (worker_tcgetattr get d') (normals entries job.termios) now.0 (
            ap (λ z. encode_terminal_status L table entries z (replicate (length entries) (pos 0)))
              now.1
            ∙ decode-encode L table sb laws width distinct entries job.termios
                (replicate (length entries) (pos 0)) t t' apart fit wide
                (length-replicate (length entries) (pos 0)) e))

      -- A tcgetattr job after a tcsetattr job that returned gives the values that were set, up to
      -- the wrap-around of an `int` and, in it, of a control character, and up to the
      -- representation of a Boolean. Conditions: those of the conversion, the settings before have
      -- flag words of the width, and the device keeps the settings that it took.
      pub tcsetattr-tcgetattr :
          (job done : SetJob) (get : GetJob) (d d' : D)
          → Keeps
          → HasWidth width (tcgetattr job.fd d).1
          → Independent sb entries job.termios
          → AllFit width entries
          → get.fd ≡ job.fd
          → worker_tcsetattr job d ≡ some (done, d')
          → result_tcsetattr done ≡ returned tt
          → result_tcgetattr (worker_tcgetattr get d') ≡ returned (normals entries job.termios)
      unfolding worker_tcsetattr
      tcsetattr-tcgetattr job done get d d' keeps wide apart fit same s ok =
          elim (Bool-cases (is_negative (tcgetattr job.fd d).0.0)) [
            | inl bad ↦ absurd (
                false≢true
                  (sym (returned-result done ok) ∙ (sym (ap failed_set (rw bad at s)) ∙ bad)))
            | inr good ↦
                set_decoded-get job done get d d' (tcgetattr job.fd d).1 keeps wide apart fit same _
                  refl (rw good at s) ok
          ]
