-- ===== src/Shoutcast/Client/Headers/Examples.antt =====
-- A listener of a source that has a name.
use savate.Shoutcast.Client.Headers.{
  asks, default_headers, find_client, pass_all, pass_on, shoutcast, stream,
}
use savate.Shoutcast.Client.Headers.PassedOn.{find_client-headers_after, headers_after}
use savate.Prelude.{
  Bytes, [], codes_of, false, if◌then◌else◌, none, refl, some, true, ◌&&◌, ◌∷◌, ◌≡◌,
}
use savate.Dict.{Dict, lookup, put}
use savate.Auth.{is_ascii}
use savate.Prelude.{bytes_eq}

abbrev response : Dict Bytes Bytes
response = (codes_of "Icy-Name", codes_of "radio") ∷ []

abbrev wants_metadata : Dict Bytes Bytes
wants_metadata = (codes_of "Icy-Metadata", codes_of "1") ∷ []

-- With a header under the name that the client looks for, it would be passed on.
passes_on :
    find_client
      (shoutcast ((codes_of "icy_name", some (codes_of "radio")) ∷ []) false)
      (codes_of "audio/mpeg")
      []
    ≡ some (
        (codes_of "Content-Length", none)
        ∷ (codes_of "Content-Type", some (codes_of "audio/mpeg"))
        ∷ (codes_of "icy-name", some (codes_of "radio"))
        ∷ [])
unfolding find_client default_headers pass_all pass_on lookup put is_ascii asks
passes_on = refl

find_client-headers_after_example :
    find_client
      (shoutcast (headers_after (response ∷ [])) true)
      (codes_of "audio/mpeg")
      wants_metadata
    ≡ (if asks wants_metadata && true
        then none
        else find_client stream (codes_of "audio/mpeg") wants_metadata)
find_client-headers_after_example =
    find_client-headers_after (response ∷ []) true (codes_of "audio/mpeg") wants_metadata
      (unfold is_ascii in refl)
