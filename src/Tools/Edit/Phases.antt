-- ===== src/Tools/Edit/Phases.antt =====
-- tools/edit.go: Grant, which may ask the user, and the check of Execute.
use goharness.Sandbox.Host.{Host}
use goharness.Sandbox.Host
use goharness.Sandbox.Decision.{Decision}
