-- ===== src/Corpc/Channel/Naming.antt =====
-- The service and the method that a request names, and the refusals that follow from the names.
use cuttle.Prelude.{
  ℕ, ◌+◌, ◌≤◌, ◌≡◌, ◌≢◌, refl, sym, ap, ap₂, ◌∙◌, subst, List, [], ◌∷◌, ◌++◌, Option, none, some,
  true, false, leb, ◌==◌, ==_iff, if◌then◌else◌, length, length-append, take, drop, append_assoc,
  take-append-drop, arith, Bool-cases, inl, inr,
}
use cuttle.Prelude.Words.{mem16, load16, load16-mem16}
use cuttle.Cc.Memory.{take-append_exact}
use cuttle.Corpc.Proto.{Comsg, byte}
use cuttle.Corpc.Proto.Message.{Message, IsMessage, Says}
use cuttle.Corpc.Proto.RoundTrip.{drop-append_exact}
use cuttle.Corpc.Channel.Request.{
  Service, Target, text, same_text, find_service, find_method, target,
}

-- A string: no 0 is inside.
abbrev pub IsText : List ℕ → Type 0
IsText [] = Unit
IsText (x ∷ xs) = (x ≢ 0) × IsText xs

abbrev pub NoneNamed : List ℕ → List Service → Type 0
NoneNamed name [] = Unit
NoneNamed name (s ∷ ss) = (name ≢ s.name) × NoneNamed name ss

abbrev pub NotAmong : List ℕ → List (List ℕ) → Type 0
NotAmong name [] = Unit
NotAmong name (m ∷ ms) = (name ≢ m) × NotAmong name ms

-- Why a request for a method of a service is refused, and the status of the answer: there are no
-- services, or none of this name; or the first of this name has no such method.
pub data Refused (services : Option (List Service)) (service method : List ℕ) : ℕ → Type 0 where
  no_services : services ≡ none → Refused services service method 2
  no_service :
      (ss : List Service)
      → services ≡ some ss
      → NoneNamed service ss
      → Refused services service method 2
  no_method :
      (before after : List Service) (s : Service)
      → services ≡ some (before ++ (s ∷ after))
      → NoneNamed service before
      → service ≡ s.name
      → NotAmong method s.methods
      → Refused services service method 3

text_lem : (xs : List ℕ) → IsText xs → text xs ≡ xs
unfolding text
text_lem [] h = refl
text_lem (x ∷ xs) h =
    let other : (x == 0) ≡ false = ground (arith, h.0) in rw other (ap (◌∷◌ x) (text_lem xs h.1))

same_text_other : (xs ys : List ℕ) → xs ≢ ys → same_text xs ys ≡ false
unfolding same_text
same_text_other [] [] h = absurd (h refl)
same_text_other [] (y ∷ ys) h = refl
same_text_other (x ∷ xs) [] h = refl
same_text_other (x ∷ xs) (y ∷ ys) h = elim (Bool-cases (x == y)) [
  | inl same ↦ rw same (same_text_other xs ys (λ e. h (ap₂ (◌∷◌) ((==_iff x y).0 same) e)))
  | inr other ↦ rw other refl
]

same_text_itself : (xs : List ℕ) → same_text xs xs ≡ true
unfolding same_text
same_text_itself [] = refl
same_text_itself (x ∷ xs) =
    let same : (x == x) ≡ true = (==_iff x x).1 refl in rw same (same_text_itself xs)

find_service-none :
    (ss : List Service) (name : List ℕ) → NoneNamed name ss → find_service ss name ≡ none
unfolding find_service
find_service-none [] name h = refl
find_service-none (s ∷ ss) name h =
    rw (same_text_other name s.name h.0) (find_service-none ss name h.1)

find_service_first :
    (before after : List Service) (s : Service) (name : List ℕ)
    → NoneNamed name before
    → name ≡ s.name
    → find_service (before ++ (s ∷ after)) name ≡ some s
unfolding find_service
find_service_first [] after s name h e =
    let same : same_text name s.name ≡ true =
      subst (λ (n : List ℕ). same_text name n ≡ true) e (same_text_itself name) in
    rw same refl
find_service_first (b ∷ before) after s name h e =
    rw (same_text_other name b.name h.0) (find_service_first before after s name h.1 e)

find_method_none :
    (ms : List (List ℕ)) (name : List ℕ) → NotAmong name ms → find_method ms name ≡ false
unfolding find_method
find_method_none [] name h = refl
find_method_none (m ∷ ms) name h = rw (same_text_other name m h.0) (find_method_none ms name h.1)

-- What the handler makes of the services, once it has the names.
abbrev pub chosen : List Service → List ℕ → List ℕ → Target
chosen services service method = elim (find_service services service) [
  | none ↦ Target.refused 2
  | some s ↦ if find_method s.methods method then Target.found s else Target.refused 3
]

abbrev by_parts : List Service → ℕ → ℕ → List ℕ → Option Target
by_parts services ls lm pack =
    if leb (ls + lm) (length pack)
    then some (chosen services (text (take ls pack)) (text (take lm (drop ls pack))))
    else none

target_parts :
    (services : List Service) (msg : Comsg) (ls lm : ℕ) (pack : List ℕ)
    → load16 (byte msg.details 2) (byte msg.details 3) ≡ ls
    → load16 (byte msg.details 4) (byte msg.details 5) ≡ lm
    → drop 6 msg.details ≡ pack
    → target (some services) msg ≡ by_parts services ls lm pack
unfolding target
target_parts services msg ls lm pack s m p =
    ap
      (λ l.
        by_parts services l (load16 (byte msg.details 4) (byte msg.details 5)) (drop 6 msg.details))
      s
    ∙ ap (λ l. by_parts services ls l (drop 6 msg.details)) m
    ∙ ap (by_parts services ls lm) p

chosen-none :
    (ss : List Service) (service method : List ℕ)
    → find_service ss service ≡ none
    → chosen ss service method ≡ Target.refused 2
chosen-none ss service method e = rw (e, chosen) refl

chosen-some :
    (ss : List Service) (service method : List ℕ) (s : Service)
    → find_service ss service ≡ some s
    → find_method s.methods method ≡ false
    → chosen ss service method ≡ Target.refused 3
chosen-some ss service method s e f = rw (e, chosen) (rw f refl)

module _ (service method stale : List ℕ) (rwnd : ℕ) (msg : Comsg)
    (short : 6 + length (service ++ method) ≤ 65524)
    (shape : msg.details
      ≡ mem16 rwnd
        ++ (mem16 (length service)
            ++ (mem16 (length method) ++ ((service ++ method) ++ stale)))) where
  chosen_lem :
      (services : List Service)
      → IsText service
      → IsText method
      → target (some services) msg ≡ some (chosen services service method)
  chosen_lem services text_s text_m =
      let sizes = length-append service method in
      let service_length : load16 (byte msg.details 2) (byte msg.details 3) ≡ length service =
        ap (λ (d : List ℕ). load16 (byte d 2) (byte d 3)) shape
        ∙ load16-mem16 (length service) (omega (arith, sizes)) in
      let method_length : load16 (byte msg.details 4) (byte msg.details 5) ≡ length method =
        ap (λ (d : List ℕ). load16 (byte d 4) (byte d 5)) shape
        ∙ load16-mem16 (length method) (omega (arith, sizes)) in
      let pack : drop 6 msg.details ≡ service ++ (method ++ stale) =
        ap (drop 6) shape ∙ append_assoc service method stale in
      let room : leb (length service + length method) (length (service ++ (method ++ stale)))
          ≡ true =
        ground (arith, length-append service (method ++ stale), length-append method stale) in
      let first : take (length service) (service ++ (method ++ stale)) ≡ service =
        take-append_exact (length service) service (method ++ stale) refl in
      let rest : drop (length service) (service ++ (method ++ stale)) ≡ method ++ stale =
        drop-append_exact service (method ++ stale) in
      let second : take (length method) (method ++ stale) ≡ method =
        take-append_exact (length method) method stale refl in
      target_parts services msg (length service) (length method) (service ++ (method ++ stale))
        service_length method_length pack
      ∙ rw room (
          ap₂ (λ a b. some (chosen services a b)) (ap text first ∙ text_lem service text_s)
            (ap (λ (b : List ℕ). text (take (length method) b)) rest
              ∙ ap text second
              ∙ text_lem method text_m))

  refused_lem :
      (services : Option (List Service)) (status : ℕ)
      → IsText service
      → IsText method
      → Refused services service method status
      → target services msg ≡ some (Target.refused status)
  unfolding target
  refused_lem services status text_s text_m (Refused.no_services e) = rw e refl
  refused_lem services status text_s text_m (Refused.no_service ss e unlike) = rw e (
      chosen_lem ss text_s text_m
      ∙ ap some (chosen-none ss service method (find_service-none ss service unlike)))
  refused_lem services status text_s text_m
        (Refused.no_method before after s e unlike named none_so) =
      rw e (
        chosen_lem (before ++ (s ∷ after)) text_s text_m
        ∙ ap some (
            chosen-some (before ++ (s ∷ after)) service method s
              (find_service_first before after s service unlike named)
              (find_method_none s.methods method none_so)))

-- A request in memory has its names behind three words.
request_shape :
    (sid rwnd : ℕ) (service method : List ℕ) (msg : Comsg)
    → Says (Message.request sid rwnd service method) msg
    → msg.details
      ≡ mem16 rwnd
        ++ (mem16 (length service)
            ++ (mem16 (length method) ++ ((service ++ method) ++ drop msg.hdr.pldsize msg.details)))
request_shape sid rwnd service method msg says =
    sym (take-append-drop msg.hdr.pldsize msg.details)
    ∙ ap (λ (b : List ℕ). b ++ drop msg.hdr.pldsize msg.details) says.payload

-- A request that is refused for its names is so with the status that says why.
pub target-Refused :
    (sid rwnd : ℕ) (service method : List ℕ) (services : Option (List Service)) (msg : Comsg)
    (status : ℕ)
    → Says (Message.request sid rwnd service method) msg
    → IsMessage (Message.request sid rwnd service method)
    → IsText service
    → IsText method
    → Refused services service method status
    → target services msg ≡ some (Target.refused status)
target-Refused sid rwnd service method services msg status says valid =
    refused_lem service method (drop msg.hdr.pldsize msg.details) rwnd msg
      (omega (arith, valid.size)) (request_shape sid rwnd service method msg says) services status
