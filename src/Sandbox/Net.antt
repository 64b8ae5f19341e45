-- ===== src/Sandbox/Net.antt =====
-- What the URL checks ask of packages net and net/url, and of the name service, as a parameter:
-- url.Parse with Hostname, net.ParseIP, net.LookupIP and strings.EqualFold. An address is its
-- canonical text, as IP.String gives it.
use goharness.Prelude.{Bool, List, Option, Text}

-- url.Parse: the text of its error, or the host name of the URL.
pub data Parsed : Type 0 where
  failed : Text → Parsed
  host : Text → Parsed

pub record Net : Type 0 where
  pub parse_url : Text → Parsed
  pub parse_ip : Text → Option Text
  pub lookup_ip : Text → Option (List Text)
  pub equal_fold : Text → Text → Bool
